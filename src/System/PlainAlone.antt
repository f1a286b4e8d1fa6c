-- ===== src/System/PlainAlone.antt =====
-- The thread of `start` (TcpServer.cpp) step by step, and `start` as one function.
use net_utils.Base.{
  ℕ, zero, suc, ◌≡◌, inl, inr, refl, sym, ap, ◌∙◌, Bool, true, false, Bool-cases, List, replicate,
  Option, none, some, ℤ,
}
use net_utils.Context.{is_invalid}
use net_utils.Os.{Os}
use net_utils.TcpServer.{TcpServer, init_socket, accept_client, run, start_with, start}
use net_utils.System.PlainThreads.{
  accepting, returned, Plain, new_plain, plain_returned, PlainEvent, serves, plain_set_up,
  plain_served, plain_start_at, plain_advance, plain_advance_all,
}

module _ {World : Type 0} (os : Os World) where
  abbrev pub plain_outcome_by : Option Bool → Plain → World → Option (Bool × TcpServer × World)
  plain_outcome_by none p w = none
  plain_outcome_by (some b) p w = some (b, p.server, w)

  -- What `start` has returned, with the server and the system.
  abbrev pub plain_outcome : Plain × World → Option (Bool × TcpServer × World)
  plain_outcome (p, w) = plain_outcome_by (plain_returned p.stage) p w

  abbrev pub plain_turns : ℕ → List PlainEvent
  plain_turns k = replicate k serves

  abbrev onward : ℕ → Plain × World → Option (Bool × TcpServer × World)
  onward k c = plain_outcome (plain_advance_all os (plain_turns k) c)

  -- A thread that has returned takes no more steps.
  onward-returned :
      (k : ℕ) (b : Bool) (p : Plain) (w : World)
      → p.stage ≡ returned b
      → onward k (p, w) ≡ some (b, p.server, w)
  unfolding plain_advance_all plain_advance
  onward-returned zero b p w at = ap (λ s. plain_outcome_by (plain_returned s) p w) at
  onward-returned (suc k) b p w at =
      ap (onward k) (ap (λ s. plain_start_at os s p w) at) ∙ onward-returned k b p w at

  run-eq-onward :
      (fuel : ℕ) (p : Plain) (w : World)
      → p.stage ≡ accepting
      → run os fuel p.server w ≡ onward fuel (p, w)
  unfolding run plain_advance_all plain_advance
  run-eq-onward zero p w at = sym (ap (λ s. plain_outcome_by (plain_returned s) p w) at)
  run-eq-onward (suc fuel) p w at =
      by_round (accept_client os p.server w)
        (λ s w'. run-eq-onward fuel (plain_served os p (some s, w')).0 w' at)
      ∙ sym (ap (onward fuel) (ap (λ s. plain_start_at os s p w) at))
    where
      by_round :
          (q : Option TcpServer × World)
          → ((s : TcpServer) (w' : World)
              → run os fuel s w' ≡ onward fuel (plain_served os p (some s, w')))
          → elim q.0 [ none ↦ some (false, p.server, q.1) | some s ↦ run os fuel s q.1 ]
            ≡ onward fuel (plain_served os p q)
      by_round (none, w') rest =
          sym (onward-returned fuel false (record p { stage = returned false }) w' refl)
      by_round (some s, w') rest = rest s w'

  start-invalid :
      (fuel : ℕ) (s : TcpServer) (w : World)
      → is_invalid s.fd ≡ true
      → start os fuel s w ≡ start_with os fuel s (init_socket os s.handle_class s w)
  unfolding start
  start-invalid fuel s w invalid = rw (start, invalid) refl

  start-valid :
      (fuel : ℕ) (s : TcpServer) (w : World)
      → is_invalid s.fd ≡ false
      → start os fuel s w ≡ some (true, s, w)
  unfolding start
  start-valid fuel s w valid = rw (start, valid) refl

  -- What `start` of a plain server of either class returns, with the server and the system that it
  -- leaves, is what its thread has done after one turn more than the fuel; `start` is still serving
  -- exactly when the thread is.
  pub start-eq-plain_outcome :
      (fuel : ℕ) (s : TcpServer) (w : World)
      → start os fuel s w
        ≡ plain_outcome (plain_advance_all os (plain_turns (suc fuel)) (new_plain s, w))
  unfolding plain_advance_all plain_advance
  start-eq-plain_outcome fuel s w = elim (Bool-cases (is_invalid s.fd)) [
    | inl none_yet ↦
        start-invalid fuel s w none_yet
        ∙ by_set_up (init_socket os s.handle_class s w)
        ∙ sym (ap (onward fuel) (rw none_yet refl))
    | inr held ↦
        start-valid fuel s w held
        ∙ sym (onward-returned fuel true (record (new_plain s) { stage = returned true }) w refl)
        ∙ sym (ap (onward fuel) (rw held refl))
  ]
    where
      by_set_up :
          (q : Option ℤ × World)
          → start_with os fuel s q ≡ onward fuel (plain_set_up os (new_plain s) q)
      by_set_up (none, w') =
          sym (onward-returned fuel false (record (new_plain s) { stage = returned false }) w' refl)
      by_set_up (some fd, w') =
          run-eq-onward fuel (plain_set_up os (new_plain s) (some fd, w')).0 w' refl
