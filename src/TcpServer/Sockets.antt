-- ===== src/TcpServer/Sockets.antt =====
-- The descriptors that `initSocket` of the plain servers opens.
use net_utils.Base.{ℕ, ◌≡◌, ◌⊎◌, inl, inr, refl, ◌∙◌, Option, none, some, ℤ, pos, negsuc}
use net_utils.Os.{Family, af_inet, af_inet6, so_reuseaddr, ipv6_v6only, in4, in6, Os, Opens, OsLaws}
use net_utils.Engine.Init.{
  Attempt, next, ◌>>=◌, done, call, checked, back_log, ipv4_address, ipv6_address,
}
use net_utils.Handle.{HandleClass, ipv4_handle, ipv6_handle}
use net_utils.TcpServer.{TcpServer, init_socket4, bind_socket6, init_socket6, init_socket}

module _ {World : Type 0} (os : Os World) where
  abbrev Same : World → World → Type 0
  Same w w' = (m : ℕ) → os.is_open w' m ≡ os.is_open w m

  -- After `socket`: no call opens or closes, and a success puts a value that is `Ok` into `mFd`.
  abbrev Settles : (ℤ → Type 0) → World → Option ℤ × World → Type 0
  Settles Ok w (none, w') = Same w w'
  Settles Ok w (some fd, w') = Ok fd × Same w w'

  record Settling (Ok : ℤ → Type 0) (m : Attempt World ℤ) : Type 0 where
    settles : (w0 w : World) → Same w0 w → Settles Ok w0 (m w)

  done-Settling : {Ok : ℤ → Type 0} (fd : ℤ) → Ok fd → Settling Ok (done fd)
  done-Settling fd ok = record { settles = λ w0 w same. (ok, same) }

  call-Settling :
      {Ok : ℤ → Type 0} (op : World → ℤ × World) {k : ℤ → Attempt World ℤ}
      → ((w : World) → Same w (op w).1)
      → ((r : ℤ) → Settling Ok (k r))
      → Settling Ok (call op >>= k)
  call-Settling {Ok} op {k} keeps rest = record {
    settles = λ w0 w same. by_result w0 (op w) (λ m. keeps w m ∙ same m);
  }
    where
      by_result : (w0 : World) (c : ℤ × World) → Same w0 c.1 → Settles Ok w0 (next (checked c) k)
      by_result w0 (pos r, w') same = (rest (pos r)).settles w0 w' same
      by_result w0 (negsuc r, w') same = same

  abbrev pub family : HandleClass → Family
  family ipv4_handle = af_inet
  family ipv6_handle = af_inet6

  -- What `mFd` holds after a success: the new descriptor n, or, in the IPv6 class and with an address
  -- that `inet_pton` does not know, what it held before.
  abbrev pub Holds : HandleClass → TcpServer → ℕ → ℤ → Type 0
  Holds ipv4_handle s n fd = fd ≡ pos n
  Holds ipv6_handle s n fd = (fd ≡ pos n) ⊎ ((fd ≡ s.fd) × (ipv6_address os s.ip ≡ none))

  -- The one descriptor that `socket` has opened stays open, after a failure too.
  abbrev pub Outcome : (ℕ → ℤ → Type 0) → World → ℤ × World → Option ℤ × World → Type 0
  Outcome Ok w (pos n, w1) (none, w') = Opens os w (pos n) w'
  Outcome Ok w (pos n, w1) (some fd, w') = Ok n fd × Opens os w (pos n) w'
  Outcome Ok w (negsuc k, w1) (none, w') = Opens os w (negsuc k) w'
  Outcome Ok w (negsuc k, w1) (some fd, w') = ⊥

  socket-Outcome :
      (Ok : ℕ → ℤ → Type 0) (w : World) (op : World → ℤ × World) (k : ℤ → Attempt World ℤ)
      → Opens os w (op w).0 (op w).1
      → ((n : ℕ) → Settling (Ok n) (k (pos n)))
      → Outcome Ok w (op w) ((call op >>= k) w)
  socket-Outcome Ok w op k opens rest = by_result (op w) opens
    where
      settled :
          (n : ℕ) (w1 : World) (r : Option ℤ × World)
          → Opens os w (pos n) w1
          → Settles (Ok n) w1 r
          → Outcome Ok w (pos n, w1) r
      settled n w1 (none, w') opens same =
          (opens.0, same n ∙ opens.1, λ m ne. same m ∙ opens.2 m ne)
      settled n w1 (some fd, w') opens (ok, same) =
          (ok, (opens.0, same n ∙ opens.1, λ m ne. same m ∙ opens.2 m ne))

      by_result : (c : ℤ × World) → Opens os w c.0 c.1 → Outcome Ok w c (next (checked c) k)
      by_result (pos n, w1) opens =
          settled n w1 (k (pos n) w1) opens ((rest n).settles w1 w1 (λ m. refl))
      by_result (negsuc j, w1) opens = opens

  module _ (laws : OsLaws os) where
    bind_socket6-Settling :
        (s : TcpServer) (n : ℕ) (address : Option ℕ)
        → ipv6_address os s.ip ≡ address
        → Settling (Holds ipv6_handle s n) (bind_socket6 os s (pos n) address)
    bind_socket6-Settling s n none e = done-Settling s.fd (inr (refl, e))
    bind_socket6-Settling s n (some a) e =
        call-Settling (os.bind (pos n) (in6 a (os.htons s.port)))
          (laws.bind_keeps (pos n) (in6 a (os.htons s.port)))
          λ _.
            call-Settling (os.listen (pos n) back_log) (laws.listen_keeps (pos n) back_log)
              λ _. done-Settling (pos n) (inl refl)

    pub init_socket-Outcome :
        (c : HandleClass) (s : TcpServer) (w : World)
        → Outcome (Holds c s) w (os.socket (family c) w) (init_socket os c s w)
    unfolding init_socket4 init_socket6
    init_socket-Outcome ipv4_handle s w =
        socket-Outcome (Holds ipv4_handle s) w (os.socket af_inet) _ (laws.socket_opens af_inet w)
          λ n.
            call-Settling (os.setsockopt (pos n) so_reuseaddr)
              (laws.setsockopt_keeps (pos n) so_reuseaddr)
              λ _.
                call-Settling (os.bind (pos n) (in4 (ipv4_address os s.ip) (os.htons s.port)))
                  (laws.bind_keeps (pos n) (in4 (ipv4_address os s.ip) (os.htons s.port)))
                  λ _.
                    call-Settling (os.listen (pos n) back_log) (laws.listen_keeps (pos n) back_log)
                      λ _. done-Settling (pos n) refl
    init_socket-Outcome ipv6_handle s w =
        socket-Outcome (Holds ipv6_handle s) w (os.socket af_inet6) _ (laws.socket_opens af_inet6 w)
          λ n.
            call-Settling (os.setsockopt (pos n) so_reuseaddr)
              (laws.setsockopt_keeps (pos n) so_reuseaddr)
              λ _.
                call-Settling (os.setsockopt (pos n) ipv6_v6only)
                  (laws.setsockopt_keeps (pos n) ipv6_v6only)
                  λ _. bind_socket6-Settling s n (ipv6_address os s.ip) refl
