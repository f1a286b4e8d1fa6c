-- ===== src/System/Alone.antt =====
-- The thread of `start` (ITcpBrokerServerEngine.cpp) step by step, and `start` as one function.
use net_utils.Base.{
  ℕ, zero, suc, ◌≡◌, inl, inr, refl, sym, ap, ◌∙◌, Bool, false, Bool-cases, List, replicate, Option,
  none, some, is_neg,
}
use net_utils.Context.{is_invalid}
use net_utils.Os.{Os}
use net_utils.Engine.{Engine}
use net_utils.Engine.Init.{init_listening_socket}
use net_utils.Server.{Server, admit, run, start, start_with}
use net_utils.Server.Accepting.{
  accept_client-refused, accept_client-admits, run-refused, run-admits,
}
use net_utils.Server.Lifecycle.{run_result_lem, start-valid, start-invalid}
use net_utils.System.Threads.{
  Phase, created, accepting, unset, left, Running, new_running, returned_of, Event, serves, set_up,
  admitted, start_at, advance, advance_all,
}

module _ {World : Type 0} (os : Os World) where
  abbrev outcome_by : Option Bool → Running → World → Option (Bool × Server × World)
  outcome_by none r w = none
  outcome_by (some b) r w = some (b, r.server, w)

  -- What `start` has returned, with the server and the system.
  abbrev pub outcome : Running × World → Option (Bool × Server × World)
  outcome (r, w) = outcome_by (returned_of r.phase) r w

  abbrev pub turns_of_start : ℕ → List Event
  turns_of_start k = replicate k serves

  abbrev onward : ℕ → Running × World → Option (Bool × Server × World)
  onward k c = outcome (advance_all os (turns_of_start k) c)

  -- A thread that has returned takes no more steps.
  idle :
      (k : ℕ) (r : Running) (w : World) (b : Bool)
      → returned_of r.phase ≡ some b
      → advance_all os (turns_of_start k) (r, w) ≡ (r, w)
  unfolding advance_all advance
  idle zero r w b back = refl
  idle (suc k) r w b back =
      ap (advance_all os (turns_of_start k)) (stays r.phase back) ∙ idle k r w b back
    where
      stays : (p : Phase) → returned_of p ≡ some b → start_at os p r w ≡ (r, w)
      stays created back = cc
      stays accepting back = cc
      stays unset back = refl
      stays left back = refl

  outcome-idle :
      (k : ℕ) (r : Running) (w : World) (b : Bool)
      → returned_of r.phase ≡ some b
      → outcome (advance_all os (turns_of_start k) (r, w)) ≡ some (b, r.server, w)
  outcome-idle k r w b back = ap outcome (idle k r w b back) ∙ ap (λ b'. outcome_by b' r w) back

  run-eq-outcome :
      (fuel : ℕ) (r : Running) (w : World)
      → r.phase ≡ accepting
      → run os fuel r.server w ≡ outcome (advance_all os (turns_of_start fuel) (r, w))
  unfolding run advance_all advance
  run-eq-outcome zero r w at = sym (ap (λ p. outcome_by (returned_of p) r w) at)
  run-eq-outcome (suc fuel) r w at =
      let (a, w') = os.accept r.server.fd w in
      let goes = ap (onward fuel) (ap (λ p. start_at os p r w) at) in
      elim (Bool-cases (is_neg a.fd)) [
        | inl bad ↦
            run-refused os fuel r.server w bad
            ∙ sym (outcome-idle fuel (record r { phase = left }) w' false refl)
            ∙ sym (
                goes
                ∙ ap (λ c. onward fuel (admitted os r c)) (accept_client-refused os r.server w bad))
        | inr ok ↦
            run-admits os fuel r.server w ok
            ∙ run-eq-outcome fuel (admitted os r (some (admit os a r.server), w')).0 w' at
            ∙ sym (
                goes
                ∙ ap (λ c. onward fuel (admitted os r c)) (accept_client-admits os r.server w ok))
      ]

  -- What `start` returns, with the server and the system that it leaves, is what its thread has done
  -- after one turn more than the fuel; `start` is still serving exactly when the thread is.
  pub start-eq-outcome :
      (fuel : ℕ) (s : Server) (w : World)
      → start os fuel s w ≡ outcome (advance_all os (turns_of_start (suc fuel)) (new_running s, w))
  unfolding advance_all advance
  start-eq-outcome fuel s w = elim (Bool-cases (is_invalid s.fd)) [
    | inl none_yet ↦
        start-invalid os fuel s w none_yet
        ∙ by_set_up (init_listening_socket os s.engine w)
        ∙ sym (ap (onward fuel) (rw none_yet refl))
    | inr held ↦
        start-valid os fuel s w held
        ∙ run-eq-outcome fuel (record (new_running s) { phase = accepting }) w refl
        ∙ sym (ap (onward fuel) (rw held refl))
  ]
    where
      by_set_up :
          (c : Option Engine × World)
          → start_with os fuel s c ≡ onward fuel (set_up os (new_running s) c)
      by_set_up (none, w') =
          sym (outcome-idle fuel (record (new_running s) { phase = unset }) w' false refl)
      by_set_up (some e, w') =
          run_result_lem os (run os fuel (record s { engine = e }) w')
          ∙ run-eq-outcome fuel (set_up os (new_running s) (some e, w')).0 w' refl
