-- ===== src/System/SetUp/Alone.antt =====
-- The set-up of the listening socket call by call, and as one function.
use net_utils.Base.{
  ℕ, zero, suc, ◌+◌, ◌≡◌, refl, sym, subst, arith, Option, none, some, ℤ, pos, negsuc, to_unsigned,
}
use net_utils.Protocol.{ProtocolType, pt_tcp_ipv4, pt_tcp_ipv6, pt_udp_ipv4, pt_udp_ipv6}
use net_utils.Context.{invalid_fd}
use net_utils.Os.{af_inet, af_inet6, so_reuseaddr, ipv6_v6only, SockAddr, in4, in6, Os}
use net_utils.Engine.{Engine}
use net_utils.Engine.Init.{
  Attempt, next, ◌>>=◌, ◌>>◌, done, call, checked, or_fail, back_log, ipv4_address, ipv6_address,
  init_ipv4_socket, init_ipv6_socket, init_funs, init_listening_socket,
}
use net_utils.System.SetUp.{
  SetUp, calling_socket, setting_reuse, binding, listening, made, broken_off, goes_on, socket_made,
  open_socket, after_reuse, after_v6only, set_up_run,
}

-- What the set-up has returned, with the engine that it leaves.
abbrev pub set_up_result : Engine → SetUp → Option (Option Engine)
set_up_result e (made fd) = some (some (record e { fd = fd }))
set_up_result e (broken_off fd) = some none
set_up_result e _ = none

module _ {World : Type 0} (os : Os World) (e : Engine) where
  -- After k steps the set-up has returned what the attempt returns, on the same system.
  abbrev Returns : Option Engine × World → SetUp × World → Type 0
  Returns r c = (set_up_result e c.0 ≡ some r.0) × (c.1 ≡ r.1)

  broken_off-Returns :
      (k : ℕ) (fd : ℤ) (w : World) → Returns (none, w) (set_up_run os k e (broken_off fd, w))
  unfolding set_up_run
  broken_off-Returns zero fd w = (refl, refl)
  broken_off-Returns (suc k) fd w = broken_off-Returns k fd w

  made-Returns :
      (k : ℕ) (fd : ℤ) (w : World)
      → Returns (some (record e { fd = fd }), w) (set_up_run os k e (made fd, w))
  unfolding set_up_run
  made-Returns zero fd w = (refl, refl)
  made-Returns (suc k) fd w = made-Returns k fd w

  goes_on-Returns :
      (k : ℕ) (fd : ℤ) (pc : SetUp) (c : ℤ × World) (f : ℤ → Attempt World Engine)
      → ((r : ℤ) (w : World) → Returns (f r w) (set_up_run os k e (pc, w)))
      → Returns (next (checked c) f) (set_up_run os k e (goes_on fd pc c))
  goes_on-Returns k fd pc (pos r, w) f rest = rest (pos r) w
  goes_on-Returns k fd pc (negsuc r, w) f rest = broken_off-Returns k fd w

  socket_made-Returns :
      (k : ℕ) (c : ℤ × World) (f : ℤ → Attempt World Engine)
      → ((fd : ℤ) (w : World) → Returns (f fd w) (set_up_run os k e (setting_reuse fd, w)))
      → Returns (next (checked c) f) (set_up_run os k e (socket_made c))
  socket_made-Returns k (pos r, w) f rest = rest (pos r) w
  socket_made-Returns k (negsuc r, w) f rest = broken_off-Returns k (negsuc r) w

  binding-Returns :
      (k : ℕ) (fd : ℤ) (addr : SockAddr) (w : World)
      → Returns
          ((do call (os.bind fd addr); call (os.listen fd back_log); done (record e { fd = fd })) w)
          (set_up_run os (suc (suc k)) e (binding fd addr, w))
  unfolding set_up_run
  binding-Returns k fd addr w =
      goes_on-Returns (suc k) fd (listening fd) (os.bind fd addr w) _ λ _ w1.
        goes_on-Returns k fd (made fd) (os.listen fd back_log w1) _ λ _ w2. made-Returns k fd w2

  v6only-Returns :
      (o : Option ℕ) (k : ℕ) (fd : ℤ) (w : World)
      → Returns
          ((do
            address ← or_fail o
            call (os.bind fd (in6 address (os.htons (to_unsigned 16 e.port))))
            call (os.listen fd back_log)
            done (record e { fd = fd }))
            w)
          (set_up_run os (suc (suc k)) e (after_v6only os o e fd, w))
  v6only-Returns none k fd w = broken_off-Returns (suc (suc k)) fd w
  v6only-Returns (some address) k fd w =
      binding-Returns k fd (in6 address (os.htons (to_unsigned 16 e.port))) w

  setting_reuse-Returns :
      (t : ProtocolType) (k : ℕ) (fd : ℤ) (w : World) (f : ℤ → Attempt World Engine)
      → e.protocol_type ≡ t
      → ((r : ℤ) (w' : World) → Returns (f r w') (set_up_run os k e (after_reuse os t e fd, w')))
      → Returns
          (next (checked (os.setsockopt fd so_reuseaddr w)) f)
          (set_up_run os (suc k) e (setting_reuse fd, w))
  unfolding set_up_run
  setting_reuse-Returns t k fd w f of_type rest =
      goes_on-Returns k fd (after_reuse os e.protocol_type e fd) (os.setsockopt fd so_reuseaddr w) f
        λ r w'.
          subst (λ u. Returns (f r w') (set_up_run os k e (after_reuse os u e fd, w')))
            (sym of_type) (rest r w')

  open_socket-Returns :
      (t : ProtocolType) (k : ℕ) (w : World)
      → e.protocol_type ≡ t
      → Returns
          (init_funs os t e w)
          (set_up_run os (suc (suc (suc (suc k)))) e (open_socket os t w))
  unfolding set_up_run init_ipv4_socket init_ipv6_socket
  open_socket-Returns pt_tcp_ipv4 k w of_type =
      socket_made-Returns (suc (suc (suc (suc k)))) (os.socket af_inet w) _ λ fd w1.
        setting_reuse-Returns pt_tcp_ipv4 (suc (suc (suc k))) fd w1 _ of_type λ _ w2.
          binding-Returns (suc k) fd (in4 (ipv4_address os e.ip) (os.htons (to_unsigned 16 e.port)))
            w2
  open_socket-Returns pt_tcp_ipv6 k w of_type =
      socket_made-Returns (suc (suc (suc (suc k)))) (os.socket af_inet6 w) _ λ fd w1.
        setting_reuse-Returns pt_tcp_ipv6 (suc (suc (suc k))) fd w1 _ of_type λ _ w2.
          goes_on-Returns (suc (suc k)) fd (after_v6only os (ipv6_address os e.ip) e fd)
            (os.setsockopt fd ipv6_v6only w2) _
            λ _ w3. v6only-Returns (ipv6_address os e.ip) k fd w3
  open_socket-Returns pt_udp_ipv4 k w of_type =
      broken_off-Returns (suc (suc (suc (suc k)))) invalid_fd w
  open_socket-Returns pt_udp_ipv6 k w of_type =
      broken_off-Returns (suc (suc (suc (suc k)))) invalid_fd w

  -- With no other thread in between, five steps of the set-up, or more, return what
  -- `init_listening_socket` returns, for every protocol and whichever call fails: the same engine, or
  -- no engine, and the same system.
  pub set_up_run-eq-init :
      (k : ℕ) (w : World)
      → (set_up_result e (set_up_run os (k + 5) e (calling_socket, w)).0
          ≡ some (init_listening_socket os e w).0)
        × ((set_up_run os (k + 5) e (calling_socket, w)).1 ≡ (init_listening_socket os e w).1)
  unfolding set_up_run init_listening_socket
  set_up_run-eq-init k w =
      subst (λ n. Returns (init_listening_socket os e w) (set_up_run os n e (calling_socket, w)))
        (later k) (open_socket-Returns e.protocol_type k w refl)
    where
      later : (j : ℕ) → suc (suc (suc (suc (suc j)))) ≡ j + 5
      later j = omega arith
