-- ===== src/TcpServer/Starting.antt =====
-- `start`, `run` and `stop` of the plain servers.
use net_utils.Base.{
  ℕ, zero, suc, ◌≡◌, refl, Bool, true, false, List, [], ◌∷◌, ◌++◌, append_assoc, append-nil, Option,
  none, some, ℤ, is_neg, All, if◌then◌else◌, arith,
}
use net_utils.Context.{is_invalid}
use net_utils.Os.{Accepted, Os}
use net_utils.TcpServer.{
  TcpServer, init_socket, set_timeouts, serve, accept_client, run, start_with, start,
}

-- What a `run` that has returned has done.
pub record Served (s : TcpServer) (b : Bool) (s' : TcpServer) : Type 0 where
  pub clients : List Accepted
  pub failed : b ≡ false
  pub handled : s' ≡ record s { handles = s.handles ++ clients }
  pub valid : All (λ a. is_neg a.fd ≡ false) clients

-- A run that has ended at once.
Served-none :
    {World : Type 0} (s : TcpServer) {b : Bool} {s' : TcpServer} {w w' : World}
    → ◌≡◌ {A = Option (Bool × TcpServer × World)} (some (false, s, w)) (some (b, s', w'))
    → Served s b s'
Served-none s e = record {
  clients = [];
  failed = cc;
  handled = ground (arith, append-nil s.handles);
  valid = tt;
}

module _ {World : Type 0} (os : Os World) where
  -- A client that was accepted has a handle afterwards.
  accept_client-some :
      (s : TcpServer) (w : World) (s' : TcpServer)
      → (accept_client os s w).0 ≡ some s'
      → (is_neg (os.accept s.fd w).0.fd ≡ false)
        × (s' ≡ record s { handles = s.handles ++ (os.accept s.fd w).0 ∷ [] })
  unfolding accept_client
  accept_client-some s w s' =
      by_fd (is_neg (os.accept s.fd w).0.fd)
        (set_timeouts os s.handle_class (os.accept s.fd w).0.fd (os.accept s.fd w).1)
    where
      by_fd :
          (b : Bool) (r : Option ℤ × World)
          → (if b then (none, (os.accept s.fd w).1) else serve os s (os.accept s.fd w).0 r).0
            ≡ some s'
          → (b ≡ false) × (s' ≡ record s { handles = s.handles ++ (os.accept s.fd w).0 ∷ [] })
      by_fd true r e = cc
      by_fd false (none, w1) e = cc
      by_fd false (some k, w1) e = (refl, cc)

  Served-cons :
      (s : TcpServer) (a : Accepted) (s1 : TcpServer) (b : Bool) (s' : TcpServer)
      → is_neg a.fd ≡ false
      → s1 ≡ record s { handles = s.handles ++ a ∷ [] }
      → Served s1 b s'
      → Served s b s'
  Served-cons s a s1 b s' ok e served = record {
    clients = a ∷ served.clients;
    failed = served.failed;
    handled = ground (arith, append_assoc s.handles (a ∷ []) served.clients);
    valid = (ok, served.valid);
  }

  -- `run` of either class returns only false. It has started a handle for each client that it
  -- accepted and did not fail on, once each and in the order of arrival, with a valid descriptor;
  -- nothing else of the server changes.
  run-Served :
      (fuel : ℕ) (s : TcpServer) (w : World) (b : Bool) (s' : TcpServer) (w' : World)
      → run os fuel s w ≡ some (b, s', w')
      → Served s b s'
  unfolding run
  run-Served zero s w b s' w' e = cc
  run-Served (suc fuel) s w b s' w' e =
      by_round (λ s1 e1. run-Served fuel s1 _ b s' w' e1) (accept_client os s w).0 refl e
    where
      by_round :
          ((s1 : TcpServer)
            → run os fuel s1 (accept_client os s w).1 ≡ some (b, s', w')
            → Served s1 b s')
          → (r : Option TcpServer) → (accept_client os s w).0 ≡ r
          → ◌≡◌ {A = Option (Bool × TcpServer × World)}
              (elim r [
                | none ↦ some (false, s, (accept_client os s w).1)
                | some s1 ↦ run os fuel s1 (accept_client os s w).1
              ])
              (some (b, s', w'))
          → Served s b s'
      by_round served none c e = Served-none s e
      by_round served (some s1) c e =
          let (ok, same) = accept_client-some s w s1 c in
          Served-cons s (os.accept s.fd w).0 s1 b s' ok same (served s1 e)

  start_with-false :
      (fuel : ℕ) (s : TcpServer) (r : Option ℤ × World) (b : Bool) (s' : TcpServer) (w' : World)
      → start_with os fuel s r ≡ some (b, s', w')
      → b ≡ false
  start_with-false fuel s (none, w) b s' w' e = cc
  start_with-false fuel s (some fd, w) b s' w' e =
      (run-Served fuel (record s { fd = fd }) w b s' w' e).failed

  -- `start` returns true only if the server held a descriptor before, and then it has done nothing.
  start-eq-true :
      (fuel : ℕ) (s : TcpServer) (w : World) (s' : TcpServer) (w' : World)
      → start os fuel s w ≡ some (true, s', w')
      → (is_invalid s.fd ≡ false) × (s' ≡ s) × (w' ≡ w)
  unfolding start
  start-eq-true fuel s w s' w' = by_fd (is_invalid s.fd)
    where
      by_fd :
          (b : Bool)
          → ◌≡◌ {A = Option (Bool × TcpServer × World)}
              (elim b [
                | true ↦ start_with os fuel s (init_socket os s.handle_class s w)
                | false ↦ some (true, s, w)
              ])
              (some (true, s', w'))
          → (b ≡ false) × (s' ≡ s) × (w' ≡ w)
      by_fd true e = let f = start_with-false fuel s _ true s' w' e in cc
      by_fd false e = (refl, cc, cc)
