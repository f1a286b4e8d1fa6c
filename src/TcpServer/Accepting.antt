-- ===== src/TcpServer/Accepting.antt =====
-- `run` of the plain servers, up to the `accept` that fails.
use net_utils.Base.{
  ℕ, zero, suc, ◌<◌, ◌≡◌, refl, sym, ap, ◌∙◌, true, false, List, [], ◌∷◌, ◌++◌, append_assoc,
  append-nil, Option, none, some, ℤ, is_neg, arith,
}
use net_utils.Os.{Accepted, Os}
use net_utils.Handle.{HandleClass}
use net_utils.TcpServer.{TcpServer, set_timeouts, serve, accept_client, run}
use net_utils.TcpServer.Failing.{run-refused}

module _ {World : Type 0} (os : Os World) (c : HandleClass) (fd : ℤ) where
  -- The system when a client has been accepted and its time limits are set.
  abbrev pub limited : World → Option ℤ × World
  limited w = set_timeouts os c (os.accept fd w).0.fd (os.accept fd w).1

  -- k clients are accepted and take their time limits, and the `accept` after them fails.
  abbrev pub FailsAt : ℕ → World → Type 0
  FailsAt zero w = is_neg (os.accept fd w).0.fd ≡ true
  FailsAt (suc k) w =
      (is_neg (os.accept fd w).0.fd ≡ false)
      × ((r : ℤ) × ((limited w).0 ≡ some r))
      × FailsAt k (limited w).1

  abbrev pub arrivals : ℕ → World → List Accepted
  arrivals zero w = []
  arrivals (suc k) w = (os.accept fd w).0 ∷ arrivals k (limited w).1

  abbrev pub after : ℕ → World → World
  after zero w = (os.accept fd w).1
  after (suc k) w = after k (limited w).1

abbrev pub with_handles : TcpServer → List Accepted → TcpServer
with_handles s clients = record s { handles = s.handles ++ clients }

module _ {World : Type 0} (os : Os World) where
  serve-some :
      (s : TcpServer) (a : Accepted) (c : Option ℤ × World) (r : ℤ)
      → c.0 ≡ some r
      → serve os s a c ≡ (some (with_handles s (a ∷ [])), c.1)
  serve-some s a (none, w) r e = cc
  serve-some s a (some k, w) r e = refl

  accept_client-limited :
      (s : TcpServer) (w : World) (r : ℤ)
      → is_neg (os.accept s.fd w).0.fd ≡ false
      → (limited os s.handle_class s.fd w).0 ≡ some r
      → accept_client os s w
        ≡ (some (with_handles s ((os.accept s.fd w).0 ∷ [])), (limited os s.handle_class s.fd w).1)
  unfolding accept_client
  accept_client-limited s w r ok e =
      rw ok (serve-some s (os.accept s.fd w).0 (limited os s.handle_class s.fd w) r e)

  run-round :
      (fuel : ℕ) (s s1 : TcpServer) (w w1 : World)
      → accept_client os s w ≡ (some s1, w1)
      → run os (suc fuel) s w ≡ run os fuel s1 w1
  unfolding run
  run-round fuel s s1 w w1 e =
      let now : (accept_client os s w).0 ≡ some s1 = ap (λ r. r.0) e in
      let then : (accept_client os s w).1 ≡ w1 = ap (λ r. r.1) e in rw (run, now, then) refl

  -- If the `accept` after k clients fails, each of which has taken its time limits, and the fuel is
  -- more than k, `run` returns false, with a handle for each of these clients in the order of arrival.
  pub run-with_handles :
      (k fuel : ℕ) (s : TcpServer) (w : World)
      → k < fuel
      → FailsAt os s.handle_class s.fd k w
      → run os fuel s w
        ≡ some (
          false,
          with_handles s (arrivals os s.handle_class s.fd k w),
          after os s.handle_class s.fd k w,
        )
  run-with_handles k zero s w lt fails = absurd (omega arith)
  run-with_handles zero (suc fuel) s w lt fails =
      run-refused os fuel s w fails
      ∙ ap (λ h. some (false, record s { handles = h }, (os.accept s.fd w).1))
          (sym (append-nil s.handles))
  run-with_handles (suc k) (suc fuel) s w lt (ok, (r, e), fails) =
      let a = (os.accept s.fd w).0 in
      let w' = (limited os s.handle_class s.fd w).1 in
      run-round fuel s (with_handles s (a ∷ [])) w w' (accept_client-limited s w r ok e)
      ∙ run-with_handles k fuel (with_handles s (a ∷ [])) w' (omega arith) fails
      ∙ ap (λ h. some (false, record s { handles = h }, after os s.handle_class s.fd k w'))
          (append_assoc s.handles (a ∷ []) (arrivals os s.handle_class s.fd k w'))
