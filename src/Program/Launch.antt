-- ===== src/Program/Launch.antt =====
-- The arguments of ThreadsEcho.cpp.
use net_utils.Base.{
  ℕ, suc, ◌+◌, ◌*◌, ◌-◌, ◌%◌, ◌^◌, ◌≤◌, ◌<◌, ◌≡◌, refl, sym, ap, ◌∙◌, true, false, List, [], ◌∷◌,
  append-nil, pos, none, some, inr, arith,
}
use net_utils.Os.{Text, af_inet6, so_reuseaddr, ipv6_v6only, Os, OsLaws}
use net_utils.Print.{print}
use net_utils.Print.Reader.{read}
use net_utils.Print.Laws.{read-print, print-cons}
use net_utils.Handle.{ipv4_handle, ipv6_handle}
use net_utils.TcpServer.{TcpServer, new_tcp_server_at, start}
use net_utils.TcpServer.Failing.{start-unset}
use net_utils.Program.{number, signed, atoi, port_of, launch}

number-read : (n : ℕ) (s : Text) → number n s ≡ (read n s).0
unfolding number read
number-read n [] = refl
number-read n (c ∷ s) = ground (arith, number-read (n * 10 + (c - b'0')) s)

atoi_digit : (c : ℕ) (s : Text) → b'0' ≤ c → atoi (c ∷ s) ≡ pos (number 0 (c ∷ s))
unfolding atoi signed
atoi_digit c s h = ground arith

-- `atoi` reads a printed number.
atoi-print : (p : ℕ) → atoi (print p) ≡ pos p
atoi-print p =
    let (c, s, e, le) = print-cons p in
    let number_p : number 0 (print p) ≡ p =
      number-read 0 (print p)
      ∙ ap (λ t. (read 0 t).0) (sym (append-nil (print p)))
      ∙ ap (λ r. r.0) (read-print p [] tt) in
    ap atoi e ∙ atoi_digit c s le ∙ ap (λ t. pos (number 0 t)) (sym e) ∙ ap pos number_p

abbrev pub host_of : List Text → Text
host_of [] = []
host_of (host ∷ more) = host

-- With a port p, printed as a decimal number below 2^31, and perhaps a host behind it, the program
-- starts one server of each class, both for that host and for the port p modulo 2^16.
pub launch_port :
    (prog : Text) (p : ℕ) (hosts : List Text)
    → p < 2 ^ 31
    → launch (prog ∷ print p ∷ hosts)
      ≡ inr (
        new_tcp_server_at ipv4_handle (host_of hosts) (p % 2 ^ 16),
        new_tcp_server_at ipv6_handle (host_of hosts) (p % 2 ^ 16),
      )
unfolding launch
launch_port prog p [] small = rw (atoi-print p) refl
launch_port prog p (host ∷ more) small = rw (atoi-print p) refl

-- With a system that keeps `OsLaws` and fuel of at least one: when the host of the command line is
-- not empty and no IPv6 address, but the second server's socket n is created and takes its two
-- options, `start` of that server, the IPv6 one, returns false, the server is as before, and n
-- stays open.
pub launch_host :
    {World : Type 0} (os : Os World) (laws : OsLaws os) (prog port : Text) (c : ℕ) (host : Text)
    (more : List Text) (fuel n : ℕ) (w w1 w2 w3 : World)
    → os.inet_pton (c ∷ host) ≡ none
    → os.socket af_inet6 w ≡ (pos n, w1)
    → os.setsockopt (pos n) so_reuseaddr w1 ≡ (pos 0, w2)
    → os.setsockopt (pos n) ipv6_v6only w2 ≡ (pos 0, w3)
    → (s4 : TcpServer) × (s6 : TcpServer) × (launch (prog ∷ port ∷ (c ∷ host) ∷ more)
        ≡ inr (s4, s6))
      × (w' : World) × (start os (suc fuel) s6 w ≡ some (false, s6, w'))
      × (os.is_open w' n ≡ true)
unfolding launch
launch_host os laws prog port c host more fuel n w w1 w2 w3 unknown made took took' =
    let s6 = new_tcp_server_at ipv6_handle (c ∷ host) (port_of port) in
    let (set_up, (w', e, leaks)) =
      start-unset os laws fuel n s6 w w1 w2 w3 refl refl unknown made took took' in
    (new_tcp_server_at ipv4_handle (c ∷ host) (port_of port), s6, refl, w', e, leaks)
