-- ===== src/TcpServer/Failing.antt =====
-- What the plain servers do with their descriptors when something fails, and on `stop`.
use net_utils.Base.{
  ℕ, suc, ◌≡◌, refl, ap, sym, subst, ◌∙◌, true, false, Option, none, some, ℤ, pos, negsuc, is_neg,
}
use net_utils.Context.{invalid_fd, is_invalid}
use net_utils.Os.{
  Accepted, af_inet6, so_reuseaddr, ipv6_v6only, so_rcvtimeo, so_sndtimeo, Os, Opens, OsLaws,
  Opens-failed,
}
use net_utils.Handle.{HandleClass, ipv4_handle, ipv6_handle}
use net_utils.Engine.Init.{ipv6_address, next, checked, call}
use net_utils.TcpServer.{
  TcpServer, init_socket, init_socket6, set_timeouts, serve, accept_client, run, start_with, start,
  stop,
}

module _ {World : Type 0} (os : Os World) where
  accept_client-none :
      (fuel : ℕ) (s : TcpServer) (w : World)
      → (accept_client os s w).0 ≡ none
      → run os (suc fuel) s w ≡ some (false, s, (accept_client os s w).1)
  unfolding run
  accept_client-none fuel s w e = rw (run, e) refl

  pub accept_client-refused :
      (s : TcpServer) (w : World)
      → is_neg (os.accept s.fd w).0.fd ≡ true
      → accept_client os s w ≡ (none, (os.accept s.fd w).1)
  unfolding accept_client
  accept_client-refused s w e = rw e refl

  pub run-refused :
      (fuel : ℕ) (s : TcpServer) (w : World)
      → is_neg (os.accept s.fd w).0.fd ≡ true
      → run os (suc fuel) s w ≡ some (false, s, (os.accept s.fd w).1)
  run-refused fuel s w e =
      accept_client-none fuel s w (ap (λ r. r.0) (accept_client-refused s w e))
      ∙ ap (λ r. some (false, s, r.1)) (accept_client-refused s w e)

  init_socket6-unset :
      (n : ℕ) (s : TcpServer) (w w1 w2 w3 : World)
      → ipv6_address os s.ip ≡ none
      → os.socket af_inet6 w ≡ (pos n, w1)
      → os.setsockopt (pos n) so_reuseaddr w1 ≡ (pos 0, w2)
      → os.setsockopt (pos n) ipv6_v6only w2 ≡ (pos 0, w3)
      → init_socket6 os s w ≡ (some s.fd, w3)
  unfolding init_socket6
  init_socket6-unset n s w w1 w2 w3 unknown made took took' = rw (made, took, took', unknown) refl

  serve-none :
      (s : TcpServer) (a : Accepted) (r : Option ℤ × World)
      → r.0 ≡ none
      → serve os s a r ≡ (none, r.1)
  serve-none s a (none, w) e = refl
  serve-none s a (some k, w) e = cc

  accept_client-unlimited :
      (n : ℕ) (s : TcpServer) (w : World)
      → s.handle_class ≡ ipv4_handle
      → (os.accept s.fd w).0.fd ≡ pos n
      → (set_timeouts os ipv4_handle (pos n) (os.accept s.fd w).1).0 ≡ none
      → accept_client os s w ≡ (none, (set_timeouts os ipv4_handle (pos n) (os.accept s.fd w).1).1)
  unfolding accept_client
  accept_client-unlimited n s w class4 made failed =
      rw (made, class4)
        (serve-none _ _ (set_timeouts os ipv4_handle (pos n) (os.accept s.fd w).1) failed)

  pub start-fresh :
      (fuel : ℕ) (s : TcpServer) (w : World)
      → s.fd ≡ invalid_fd
      → start os fuel s w ≡ start_with os fuel s (init_socket os s.handle_class s w)
  unfolding start
  start-fresh fuel s w fresh =
      let e : is_invalid s.fd ≡ true = ap is_invalid fresh in rw (start, e) refl

  start-held :
      (fuel : ℕ) (s : TcpServer) (w : World)
      → is_invalid s.fd ≡ false
      → start os fuel s w ≡ some (true, s, w)
  unfolding start
  start-held fuel s w held = rw (start, held) refl

  -- When `initSocket` of a server with no descriptor has made the socket n but the first `accept`
  -- fails (and the fuel is at least one), `start` returns false and
  -- the server keeps n: the next `start` returns true although the server does not run, with no call
  -- of the system.
  start-again :
      (fuel fuel' n : ℕ) (s : TcpServer) (w w1 : World)
      → s.fd ≡ invalid_fd
      → init_socket os s.handle_class s w ≡ (some (pos n), w1)
      → is_neg (os.accept (pos n) w1).0.fd ≡ true
      → (s' : TcpServer) × (w' : World) × (start os (suc fuel) s w ≡ some (false, s', w'))
        × (start os fuel' s' w' ≡ some (true, s', w'))
  start-again fuel fuel' n s w w1 fresh made refused = (
    record s { fd = pos n },
    (os.accept (pos n) w1).1,
    start-fresh (suc fuel) s w fresh
        ∙ ap (start_with os (suc fuel) s) made
        ∙ run-refused fuel (record s { fd = pos n }) w1 refused,
    start-held fuel' (record s { fd = pos n }) _ refl,
  )

  module _ (laws : OsLaws os) where
    -- With a system that keeps `OsLaws`: after `stop` the descriptor n of the server is closed and
    -- the server does not hold it any more, so that a second `stop`, whatever descriptors are open
    -- by then, closes none.
    stop-stop :
        (n : ℕ) (s : TcpServer) (w w1 : World) (m : ℕ)
        → s.fd ≡ pos n
        → ((stop os s w).1.fd ≡ invalid_fd)
          × (os.is_open (stop os s w).2 n ≡ false)
          × (os.is_open (stop os (stop os s w).1 w1).2 m ≡ os.is_open w1 m)
    unfolding stop
    stop-stop n s w w1 m held = (refl, rw held (laws.close_shuts n w), laws.close_negative 0 w1 m)

    -- With a system that keeps `OsLaws`, and fuel of at least one: when the address of an IPv6 server with no descriptor is not
    -- empty and not known to `inet_pton`, but the socket n was created and took its two options,
    -- `initSocket` succeeds with no descriptor. `start` then fails in the first `accept`, the server
    -- is as before, and n stays open.
    pub start-unset :
        (fuel n : ℕ) (s : TcpServer) (w w1 w2 w3 : World)
        → s.handle_class ≡ ipv6_handle
        → s.fd ≡ invalid_fd
        → ipv6_address os s.ip ≡ none
        → os.socket af_inet6 w ≡ (pos n, w1)
        → os.setsockopt (pos n) so_reuseaddr w1 ≡ (pos 0, w2)
        → os.setsockopt (pos n) ipv6_v6only w2 ≡ (pos 0, w3)
        → (init_socket os ipv6_handle s w ≡ (some invalid_fd, w3))
          × ((w' : World) × (start os (suc fuel) s w ≡ some (false, s, w'))
              × (os.is_open w' n ≡ true))
    start-unset fuel n s w w1 w2 w3 class6 fresh unknown made took took' =
        let set_up =
          init_socket6-unset n s w w1 w2 w3 unknown made took took'
          ∙ ap (λ fd. (some fd, w3)) fresh in
        let refused = laws.accept_negative 0 w3 in
        (
          set_up,
          (
            (os.accept invalid_fd w3).1,
            start-fresh (suc fuel) s w fresh
                ∙ ap (λ c. start_with os (suc fuel) s (init_socket os c s w)) class6
                ∙ ap (start_with os (suc fuel) s) set_up
                ∙ run-refused fuel (record s { fd = invalid_fd }) w3 refused
                ∙ ap (λ fd. some (false, record s { fd = fd }, (os.accept invalid_fd w3).1))
                    (sym fresh),
            Opens-failed os (os.accept invalid_fd w3).0.fd refused (laws.accept_opens invalid_fd w3)
                  n
                ∙ ap (λ r. os.is_open r.1 n) (sym took')
                ∙ laws.setsockopt_keeps (pos n) ipv6_v6only w2 n
                ∙ ap (λ r. os.is_open r.1 n) (sym took)
                ∙ laws.setsockopt_keeps (pos n) so_reuseaddr w1 n
                ∙ (subst (λ r. Opens os w r.0 r.1) made (laws.socket_opens af_inet6 w)).1,
          ),
        )

    pub set_timeouts-keeps :
        (c : HandleClass) (fd : ℤ) (w : World) (m : ℕ)
        → os.is_open (set_timeouts os c fd w).1 m ≡ os.is_open w m
    unfolding set_timeouts
    set_timeouts-keeps ipv6_handle fd w m = refl
    set_timeouts-keeps ipv4_handle fd w m =
        by_first (os.setsockopt fd so_rcvtimeo w) ∙ laws.setsockopt_keeps fd so_rcvtimeo w m
      where
        by_first :
            (c : ℤ × World)
            → os.is_open (next (checked c) λ _. call (os.setsockopt fd so_sndtimeo)).1 m
              ≡ os.is_open c.1 m
        by_first (pos r, w1) = laws.setsockopt_keeps fd so_sndtimeo w1 m
        by_first (negsuc r, w1) = refl

    -- With a system that keeps `OsLaws`, and fuel of at least one: when an IPv4 server has accepted
    -- a client as n but a time limit cannot be set, `run` returns false, no handle is started, and n stays open.
    pub run-leaks :
        (fuel n : ℕ) (s : TcpServer) (w : World)
        → s.handle_class ≡ ipv4_handle
        → (os.accept s.fd w).0.fd ≡ pos n
        → (set_timeouts os ipv4_handle (pos n) (os.accept s.fd w).1).0 ≡ none
        → (w' : World) × (run os (suc fuel) s w ≡ some (false, s, w')) × (os.is_open w' n ≡ true)
    run-leaks fuel n s w class4 made failed =
        let refused = accept_client-unlimited n s w class4 made failed in
        (
          (set_timeouts os ipv4_handle (pos n) (os.accept s.fd w).1).1,
          accept_client-none fuel s w (ap (λ r. r.0) refused)
              ∙ ap (λ r. some (false, s, r.1)) refused,
          set_timeouts-keeps ipv4_handle (pos n) (os.accept s.fd w).1 n
              ∙ (subst (λ fd. Opens os w fd (os.accept s.fd w).1) made
                  (laws.accept_opens s.fd w)).1,
        )
