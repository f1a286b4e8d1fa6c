-- ===== src/System/Sessions.antt =====
-- What every session of a broker server has, when a new one has it and every turn keeps it.
use net_utils.Base.{
  ℕ, zero, suc, ◌≡◌, inl, inr, false, Bool-cases, List, [], ◌∷◌, ◌++◌, Option, none, some, All,
  All-snoc, is_neg,
}
use net_utils.Context.{is_invalid}
use net_utils.Os.{Accepted, Os}
use net_utils.Engine.{Engine}
use net_utils.Engine.Init.{init_listening_socket}
use net_utils.Server.{ServerClass, Server, context_for, admit, accept_client}
use net_utils.Server.Accepting.{accept_client-refused, accept_client-admits}
use net_utils.Worker.{Turn, step}
use net_utils.System.Threads.{
  Phase, created, accepting, unset, left, Session, new_session, nth_step, Running, Event, serves,
  turns, set_up, admitted, start_at, advance, advance_all,
}
use net_utils.System.Ledger.{spawned-admit}

-- A condition on the turns of the workers.
abbrev pub Takes : (Turn → Type 0) → Event → Type 0
Takes Q serves = Unit
Takes Q (turns i t) = Q t

module _ {World : Type 0} (os : Os World) (P : ServerClass → Session → Type 0) (Q : Turn → Type 0)
    (steps : (c : ServerClass) (t : Turn) (x : Session)
      → Q t
      → P c x
      → P c (record x { worker = step t x.worker }))
    (starts : (c : ServerClass) (a : Accepted)
      → is_neg a.fd ≡ false
      → P c (new_session (context_for os c a))) where
  abbrev pub Each : Running → Type 0
  Each r = All (P r.server.server_class) r.sessions

  nth_step-Each :
      (c : ServerClass) (i : ℕ) (t : Turn) (xs : List Session) (w : World)
      → Q t
      → All (P c) xs
      → All (P c) (nth_step os i t xs w).0
  nth_step-Each c i t [] w q all = tt
  nth_step-Each c zero t (x ∷ xs) w q (p, all) = (steps c t x q p, all)
  nth_step-Each c (suc i) t (x ∷ xs) w q (p, all) = (p, nth_step-Each c i t xs w q all)

  admit-Each :
      (a : Accepted) (s : Server) (xs : List Session)
      → is_neg a.fd ≡ false
      → All (P s.server_class) xs
      → All
          (P (admit os a s).server_class)
          (xs ++ new_session (context_for os s.server_class a) ∷ [])
  unfolding admit
  admit-Each a s xs ok all =
      All-snoc (P s.server_class) xs (new_session (context_for os s.server_class a)) all
        (starts s.server_class a ok)

  admitted-Each :
      (r : Running) (w : World) → Each r → Each (admitted os r (accept_client os r.server w)).0
  admitted-Each r w all =
      let (a, w') = os.accept r.server.fd w in
      elim (Bool-cases (is_neg a.fd)) [
        | inl bad ↦ rw (accept_client-refused os r.server w bad) all
        | inr ok ↦
            rw (accept_client-admits os r.server w ok, spawned-admit os a r.server)
              (admit-Each a r.server r.sessions ok all)
      ]

  pub advance-Each :
      (e : Event) (r : Running) (w : World) → Takes Q e → Each r → Each (advance os e (r, w)).0
  unfolding advance
  advance-Each serves r w q all = by_phase r.phase
    where
      by_result : (c : Option Engine × World) → Each (set_up os r c).0
      by_result (none, w') = all
      by_result (some e, w') = all

      by_phase : (p : Phase) → Each (start_at os p r w).0
      by_phase created = elim (Bool-cases (is_invalid r.server.fd)) [
        | inl e ↦ rw e (by_result (init_listening_socket os r.server.engine w))
        | inr e ↦ rw e all
      ]
      by_phase accepting = admitted-Each r w all
      by_phase unset = all
      by_phase left = all
  advance-Each (turns i t) r w q all = nth_step-Each r.server.server_class i t r.sessions w q all

  pub advance_all-Each :
      (events : List Event) (r : Running) (w : World)
      → All (Takes Q) events
      → Each r
      → Each (advance_all os events (r, w)).0
  unfolding advance_all
  advance_all-Each [] r w q all = all
  advance_all-Each (e ∷ events) r w q all =
      let (r', w') = advance os e (r, w) in
      advance_all-Each events r' w' q.1 (advance-Each e r w q.0 all)
