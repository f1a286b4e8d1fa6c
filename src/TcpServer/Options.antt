-- ===== src/TcpServer/Options.antt =====
-- The callbacks for socket options of src/NetUtils/services/tcp/TcpServer.cpp.
use net_utils.Base.{
  ℕ, zero, suc, ◌≡◌, refl, ap, ◌∙◌, Bool, false, List, [], ◌∷◌, Bool-cases, inl, inr, Option, none,
  some, ℤ, is_neg,
}
use net_utils.Context.{is_invalid}
use net_utils.Os.{Accepted, Os, af_inet6, so_reuseaddr, ipv6_v6only}
use net_utils.Engine.Init.{Attempt, ◌>>=◌, ◌>>◌, call, ipv6_address}
use net_utils.Handle.{HandleClass, ipv4_handle, ipv6_handle}
use net_utils.TcpServer.{
  TcpServer, SetSockOptCbs, set_listen_sock_cbs, set_accept_sock_cbs, init_socket, init_socket4,
  bind_socket6, init_socket6, set_timeouts, serve, accept_client, run, start_with, start,
}

module _ {World : Type 0} (invoke : ℕ → ℤ → World → Bool × World) where
  -- `for (const auto& cb : *cbs) (*cb)(sock)`: `none` for a null pointer, where the code has no
  -- defined behaviour.
  unfoldable pub apply_each : List (Option ℕ) → ℤ → World → Option World
  apply_each [] sock w = some w
  apply_each (none ∷ cbs) sock w = none
  apply_each (some cb ∷ cbs) sock w = apply_each cbs sock (invoke cb sock w).1

  abbrev pub apply_cbs : SetSockOptCbs → ℤ → World → Option World
  apply_cbs none sock w = none
  apply_cbs (some cbs) sock w = apply_each cbs sock w

  abbrev pub apply_listen_sock_cbs : TcpServer → ℤ → World → Option World
  apply_listen_sock_cbs s listen_sock w = apply_cbs s.listen_sock_cbs listen_sock w

  abbrev pub apply_accept_sock_cbs : TcpServer → ℤ → World → Option World
  apply_accept_sock_cbs s accept_sock w = apply_cbs s.accept_sock_cbs accept_sock w

-- A server whose two setters have been called.
abbrev pub with_cbs : SetSockOptCbs → SetSockOptCbs → TcpServer → TcpServer
with_cbs listen accept s = set_accept_sock_cbs accept (set_listen_sock_cbs listen s)

module _ {World : Type 0} (os : Os World) (listen accept : SetSockOptCbs) where
  abbrev pub kept : Option (Bool × TcpServer × World) → Option (Bool × TcpServer × World)
  kept none = none
  kept (some (b, s, w)) = some (b, with_cbs listen accept s, w)

  abbrev kept_one : Option TcpServer × World → Option TcpServer × World
  kept_one (none, w) = (none, w)
  kept_one (some s, w) = (some (with_cbs listen accept s), w)

  serve-with_cbs :
      (s : TcpServer) (a : Accepted) (r : Option ℤ × World)
      → serve os (with_cbs listen accept s) a r ≡ kept_one (serve os s a r)
  serve-with_cbs s a (none, w) = refl
  serve-with_cbs s a (some k, w) = refl

  accept_client-with_cbs :
      (s : TcpServer) (w : World)
      → accept_client os (with_cbs listen accept s) w ≡ kept_one (accept_client os s w)
  unfolding accept_client
  accept_client-with_cbs s w = elim (Bool-cases (is_neg (os.accept s.fd w).0.fd)) [
    | inl refused ↦ rw refused refl
    | inr ok ↦ rw ok (
        serve-with_cbs s (os.accept s.fd w).0
          (set_timeouts os s.handle_class (os.accept s.fd w).0.fd (os.accept s.fd w).1))
  ]

  abbrev next_round : ℕ → TcpServer → Option TcpServer × World → Option (Bool × TcpServer × World)
  next_round fuel s r = elim (r.0) [ none ↦ some (false, s, r.1) | some s' ↦ run os fuel s' r.1 ]

  next_round-kept_one :
      (fuel : ℕ) (s : TcpServer)
      → ((s1 : TcpServer) (w1 : World)
          → run os fuel (with_cbs listen accept s1) w1 ≡ kept (run os fuel s1 w1))
      → (r : Option TcpServer × World)
      → next_round fuel (with_cbs listen accept s) (kept_one r) ≡ kept (next_round fuel s r)
  next_round-kept_one fuel s rest (none, w) = refl
  next_round-kept_one fuel s rest (some s1, w) = rest s1 w

  pub run-with_cbs :
      (fuel : ℕ) (s : TcpServer) (w : World)
      → run os fuel (with_cbs listen accept s) w ≡ kept (run os fuel s w)
  unfolding run
  run-with_cbs zero s w = refl
  run-with_cbs (suc fuel) s w =
      ap (next_round fuel (with_cbs listen accept s)) (accept_client-with_cbs s w)
      ∙ next_round-kept_one fuel s (run-with_cbs fuel) (accept_client os s w)

  abbrev bind_at : TcpServer → Option ℕ → ℤ → Attempt World ℤ
  bind_at s address sock = bind_socket6 os s sock address

  bind_socket6-with_cbs :
      (s : TcpServer) (address : Option ℕ)
      → bind_at (with_cbs listen accept s) address ≡ bind_at s address
  bind_socket6-with_cbs s none = refl
  bind_socket6-with_cbs s (some address) = refl

  init_socket-with_cbs :
      (c : HandleClass) (s : TcpServer)
      → init_socket os c (with_cbs listen accept s) ≡ init_socket os c s
  unfolding init_socket4 init_socket6
  init_socket-with_cbs ipv4_handle s = refl
  init_socket-with_cbs ipv6_handle s =
      ap
        (λ bind. do
          svr_sock ← call (os.socket af_inet6)
          call (os.setsockopt svr_sock so_reuseaddr)
          call (os.setsockopt svr_sock ipv6_v6only)
          bind svr_sock)
        (bind_socket6-with_cbs s (ipv6_address os s.ip))

  start_with-with_cbs :
      (fuel : ℕ) (s : TcpServer) (r : Option ℤ × World)
      → start_with os fuel (with_cbs listen accept s) r ≡ kept (start_with os fuel s r)
  start_with-with_cbs fuel s (none, w) = refl
  start_with-with_cbs fuel s (some fd, w) = run-with_cbs fuel (record s { fd = fd }) w

  -- The callbacks change nothing: `start` of a server to which they were given returns what it
  -- returns without them, with the same clients and the same state of the system, and leaves the
  -- callbacks in place.
  pub start-with_cbs :
      (fuel : ℕ) (s : TcpServer) (w : World)
      → start os fuel (with_cbs listen accept s) w ≡ kept (start os fuel s w)
  unfolding start
  start-with_cbs fuel s w = elim (Bool-cases (is_invalid s.fd)) [
    | inl fresh ↦
        rw (start, fresh)
          (ap (λ f. start_with os fuel (with_cbs listen accept s) (f w))
              (init_socket-with_cbs s.handle_class s)
            ∙ start_with-with_cbs fuel s (init_socket os s.handle_class s w))
    | inr held ↦ rw (start, held) refl
  ]
