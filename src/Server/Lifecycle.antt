-- ===== src/Server/Lifecycle.antt =====
-- `start`, `stop` and `restart` of the two servers.
use net_utils.Base.{
  ℕ, suc, ◌≡◌, ◌≢◌, refl, sym, ap, subst, ◌∙◌, Bool, true, false, Option, none, some, ℤ, pos,
  negsuc, is_neg, arith,
}
use net_utils.Protocol.{ProtocolType, pt_tcp_ipv4, pt_tcp_ipv6, pt_udp_ipv4, pt_udp_ipv6}
use net_utils.Context.{invalid_fd, is_invalid}
use net_utils.Os.{Family, af_inet, af_inet6, Os, OsLaws, Opens-failed}
use net_utils.Engine.{Engine}
use net_utils.Engine.Init.{init_listening_socket}
use net_utils.Engine.Init.Descriptors.{Outcome, Listens, init_listening_socket-Listens}
use net_utils.Server.{Server, run, run_result, start_with, start, stop, restart}
use net_utils.Server.Accepting.{run-Serves, run-refused}

module _ {World : Type 0} (os : Os World) where
  pub run_result_lem : (r : Option (Bool × Server × World)) → run_result os r ≡ r
  run_result_lem none = refl
  run_result_lem (some (false, s, w)) = refl
  run_result_lem (some (true, s, w)) = refl

  run-ne-true :
      (fuel : ℕ) (s : Server) (w : World) {s' : Server} {w' : World}
      → run os fuel s w ≢ some (true, s', w')
  run-ne-true fuel s w e = cc ((run-Serves os fuel s w e).failed)

  start_with-ne-true :
      (fuel : ℕ) (s : Server) (r : Option Engine × World) {s' : Server} {w' : World}
      → start_with os fuel s r ≢ some (true, s', w')
  start_with-ne-true fuel s (none, w) e = cc
  start_with-ne-true fuel s (some e', w) e =
      run-ne-true fuel (record s { engine = e' }) w (sym (run_result_lem _) ∙ e)

  -- `start` never returns true, whatever the system does: it returns false, or goes on serving.
  start-ne-true :
      (fuel : ℕ) (s : Server) (w : World) (s' : Server) (w' : World)
      → start os fuel s w ≢ some (true, s', w')
  unfolding start
  start-ne-true fuel s w s' w' = by_fd (is_invalid s.fd)
    where
      by_fd :
          (b : Bool)
          → elim b [
            | true ↦ start_with os fuel s (init_listening_socket os s.engine w)
            | false ↦ run_result os (run os fuel s w)
          ]
            ≢ some (true, s', w')
      by_fd true e = start_with-ne-true fuel s _ e
      by_fd false e = run-ne-true fuel s w (sym (run_result_lem _) ∙ e)

  stop-valid : (s : Server) (w : World) → is_invalid s.fd ≡ false → stop os s w ≡ os.close s.fd w
  unfolding stop
  stop-valid s w valid = rw (valid, stop) refl

  pub start-valid :
      (fuel : ℕ) (s : Server) (w : World)
      → is_invalid s.fd ≡ false
      → start os fuel s w ≡ run os fuel s w
  unfolding start
  start-valid fuel s w valid = rw (valid, start) (run_result_lem (run os fuel s w))

  pub start-invalid :
      (fuel : ℕ) (s : Server) (w : World)
      → is_invalid s.fd ≡ true
      → start os fuel s w ≡ start_with os fuel s (init_listening_socket os s.engine w)
  unfolding start
  start-invalid fuel s w invalid = rw (invalid, start) refl

  module _ (laws : OsLaws os) where
    -- With a system that keeps `OsLaws`, and fuel of at least one, restarting a server that has a
    -- listening socket fails: `stop` closes the socket and leaves its number in the engine, so
    -- `start` makes no new one and the first `accept` fails. No client is served, the server is
    -- unchanged, and the socket is closed.
    pub restart-fails :
        (fuel n : ℕ) (s : Server) (w : World)
        → s.fd ≡ pos n
        → (w' : World) × (restart os (suc fuel) s w ≡ some (false, s, w'))
          × (os.is_open w' n ≡ false)
    unfolding restart
    restart-fails fuel n s w e = (
      (os.accept s.fd (os.close s.fd w)).1,
      run_result_lem (start os (suc fuel) s (stop os s w))
          ∙ ap (start os (suc fuel) s) (stop-valid s w valid)
          ∙ start-valid (suc fuel) s (os.close s.fd w) valid
          ∙ run-refused os fuel s (os.close s.fd w) refused,
      Opens-failed os (os.accept s.fd (os.close s.fd w)).0.fd refused
            (laws.accept_opens s.fd (os.close s.fd w)) n
          ∙ shut,
    )
      where
        valid : is_invalid s.fd ≡ false
        valid = ap is_invalid e

        shut : os.is_open (os.close s.fd w) n ≡ false
        shut = rw e (laws.close_shuts n w)

        refused : is_neg (os.accept s.fd (os.close s.fd w)).0.fd ≡ true
        refused = rw e (laws.accept_shut n (os.close (pos n) w) (laws.close_shuts n w))

    -- The family of the socket that a protocol's server listens on.
    abbrev pub HasFamily : ProtocolType → Family → Type 0
    HasFamily pt_tcp_ipv4 f = f ≡ af_inet
    HasFamily pt_tcp_ipv6 f = f ≡ af_inet6
    HasFamily pt_udp_ipv4 f = ⊥
    HasFamily pt_udp_ipv6 f = ⊥

    Outcome-failed :
        (e : Engine) (n : ℕ) (w : World) (c : ℤ × World) (r : Option Engine × World)
        → c.0 ≡ pos n
        → r.0 ≡ none
        → Outcome os e w c r
        → (os.is_open w n ≡ false) × (os.is_open r.1 n ≡ true)
    Outcome-failed e n w (pos m, w1) (none, w') made failed opens =
        let same : m ≡ n = ground arith in
        subst (λ k. (os.is_open w k ≡ false) × (os.is_open w' k ≡ true)) same (opens.0, opens.1)
    Outcome-failed e n w (pos m, w1) (some e', w') made failed opens = cc
    Outcome-failed e n w (negsuc k, w1) r made failed opens = cc

    Listens-failed :
        (t : ProtocolType) (f : Family) (e : Engine) (n : ℕ) (w : World) (r : Option Engine × World)
        → HasFamily t f
        → (os.socket f w).0 ≡ pos n
        → r.0 ≡ none
        → Listens os t e w r
        → (os.is_open w n ≡ false) × (os.is_open r.1 n ≡ true)
    Listens-failed pt_tcp_ipv4 f e n w r has made failed listens =
        Outcome-failed e n w (os.socket af_inet w) r (rw has at made) failed listens
    Listens-failed pt_tcp_ipv6 f e n w r has made failed listens =
        Outcome-failed e n w (os.socket af_inet6 w) r (rw has at made) failed listens
    Listens-failed pt_udp_ipv4 f e n w r has made failed listens = absurd has
    Listens-failed pt_udp_ipv6 f e n w r has made failed listens = absurd has

    start_with_failed :
        (fuel : ℕ) (s : Server) (r : Option Engine × World)
        → r.0 ≡ none
        → start_with os fuel s r ≡ some (false, s, r.1)
    start_with_failed fuel s (none, w) failed = refl
    start_with_failed fuel s (some e, w) failed = cc

    pub start_fresh :
        (fuel : ℕ) (s : Server) (w : World)
        → s.fd ≡ invalid_fd
        → start os fuel s w ≡ start_with os fuel s (init_listening_socket os s.engine w)
    start_fresh fuel s w fresh = start-invalid fuel s w (ap is_invalid fresh)

    -- With a system that keeps `OsLaws`: when the socket of a TCP server with no descriptor is
    -- created as n, but the set-up fails after that, `start` returns false, the server is as before,
    -- and n, which was not open, stays open although the server does not hold it.
    pub start-leaks :
        (fuel n : ℕ) (s : Server) (f : Family) (w : World)
        → s.fd ≡ invalid_fd
        → HasFamily s.protocol_type f
        → (os.socket f w).0 ≡ pos n
        → (init_listening_socket os s.engine w).0 ≡ none
        → (w' : World) × (start os fuel s w ≡ some (false, s, w'))
          × (os.is_open w n ≡ false)
          × (os.is_open w' n ≡ true)
    start-leaks fuel n s f w fresh has made failed =
        let (before, after) =
          Listens-failed s.protocol_type f s.engine n w (init_listening_socket os s.engine w) has
            made failed (init_listening_socket-Listens os laws s.engine w) in
        (
          (init_listening_socket os s.engine w).1,
          start_fresh fuel s w fresh
              ∙ start_with_failed fuel s (init_listening_socket os s.engine w) failed,
          before,
          after,
        )

    Outcome-made :
        (e e' : Engine) (n : ℕ) (w : World) (c : ℤ × World) (r : Option Engine × World)
        → r.0 ≡ some e'
        → e'.fd ≡ pos n
        → Outcome os e w c r
        → os.is_open r.1 n ≡ true
    Outcome-made e e' n w (pos m, w1) (some e2, w') made held (eq, opens) =
        let same : m ≡ n = ground arith in subst (λ k. os.is_open w' k ≡ true) same opens.1
    Outcome-made e e' n w c (none, w') made held out = cc
    Outcome-made e e' n w (negsuc k, w1) (some e2, w') made held out = absurd out

    Listens-made :
        (t : ProtocolType) (e e' : Engine) (n : ℕ) (w : World) (r : Option Engine × World)
        → r.0 ≡ some e'
        → e'.fd ≡ pos n
        → Listens os t e w r
        → os.is_open r.1 n ≡ true
    Listens-made pt_tcp_ipv4 e e' n w r made held out = Outcome-made e e' n w _ r made held out
    Listens-made pt_tcp_ipv6 e e' n w r made held out = Outcome-made e e' n w _ r made held out
    Listens-made pt_udp_ipv4 e e' n w r made held out = cc
    Listens-made pt_udp_ipv6 e e' n w r made held out = cc

    -- With a system that keeps `OsLaws`: `stop` leaves the number of the closed socket in the
    -- engine. If the listening socket of another engine, set up next, gets the same number, a second
    -- `stop` of the first server closes it.
    pub stop-closes_other :
        (n : ℕ) (s : Server) (e e' : Engine) (w w' : World)
        → s.fd ≡ pos n
        → init_listening_socket os e (stop os s w) ≡ (some e', w')
        → e'.fd ≡ pos n
        → (os.is_open (stop os s w) n ≡ false)
          × (os.is_open w' n ≡ true)
          × (os.is_open (stop os s w') n ≡ false)
    unfolding stop
    stop-closes_other n s e e' w w' held made reused = (
      rw held (laws.close_shuts n w),
      subst (λ r. os.is_open r n ≡ true) (ap (λ r. r.1) made)
          (Listens-made e.protocol_type e e' n (stop os s w)
            (init_listening_socket os e (stop os s w)) (ap (λ r. r.0) made) reused
            (init_listening_socket-Listens os laws e (stop os s w))),
      rw held (laws.close_shuts n w'),
    )
