-- ===== src/Program/Lifetimes.antt =====
-- The program of ThreadsEchoEngine.cpp with the lives of its two servers: each is made in the function
-- that its thread runs, and goes when that function ends, after `start`; `join` waits for this.
pub mod Ended
mod Tests
use net_utils.Base.{
  ℕ, ◌≡◌, inl, inr, refl, sym, ap, ◌∙◌, Bool, true, false, Bool-cases, ◌&&◌, if◌then◌else◌, List,
  [], Option, none, some, is_neg,
}
use net_utils.Context.{is_invalid}
use net_utils.Os.{Os}
use net_utils.Server.{accept_client}
use net_utils.Server.Accepting.{accept_client-refused, accept_client-admits}
use net_utils.System.Threads.{
  Phase, created, accepting, unset, left, Session, serves, turns, returned_of,
}
use net_utils.System.Lifetimes.{
  Process, Happening, of_thread, thread_ends, drops_server, is_back, pick, release, thread_end,
  drop_server, happen,
}
use net_utils.System.Lifetimes.Neat.{Neat, start_at-Settled, happen-Neat}
use net_utils.System.SetUp.{
  SetUp, calling_socket, setting_reuse, setting_v6only, binding, listening, made, broken_off,
  set_up_step,
}
use net_utils.System.SetUp.Descriptors.{UnderWay}
use net_utils.System.Starting.{Starting, new_starting, set_up_turn, start_step, starting_step}
use net_utils.Program.{echo_server, echo6_server}
use net_utils.Program.Threads.{ServerThreads, Program, new_program}

-- The function of the server's thread is back.
abbrev pub thread_returned : Bool → Phase → Option Bool
thread_returned true at = none
thread_returned false at = returned_of at

abbrev pub engine_returned : Starting → Option Bool
engine_returned st = thread_returned st.process.has_server st.process.running.phase

-- The two arguments are what the memory of the engines held.
abbrev pub engine_program : ℕ → ℕ → Program Starting
engine_program garbage garbage6 =
    new_program (new_starting (echo_server garbage)) (new_starting (echo6_server garbage6))

-- What a thread's end or the server's makes of a process: the thread of `start` stays where it is, and
-- once the server has gone it does not come back.
abbrev SamePlace : Process → Process → Type 0
SamePlace p p' =
    (p'.running.phase ≡ p.running.phase) × (p.has_server ≡ false → p'.has_server ≡ false)

-- The queue is gone with the server.
abbrev pub Swept : Process → Type 0
Swept p = p.has_server ≡ false → p.queued ≡ []

-- Before `start` has done with the set-up of the socket, this is not back with `true`.
abbrev pub NotMade : Starting → Type 0
NotMade st = st.process.running.phase ≡ created → UnderWay st.set_up

-- What a step of the thread of `start` keeps.
abbrev Progress : Starting → Starting → Type 0
Progress st st' =
    (st'.process.has_server ≡ st.process.has_server)
    × (st'.process.queued ≡ st.process.queued)
    × NotMade st'
    × ((b : Bool)
        → returned_of st.process.running.phase ≡ some b
        → returned_of st'.process.running.phase ≡ some b)

set_up_turn-Progress :
    {World : Type 0} (st : Starting) (c : SetUp × World)
    → returned_of st.process.running.phase ≡ none
    → Progress st (set_up_turn st c).0
set_up_turn-Progress st (made fd, w) on = (refl, refl, λ e. cc, λ b back. cc)
set_up_turn-Progress st (broken_off fd, w) on = (refl, refl, λ e. cc, λ b back. cc)
set_up_turn-Progress st (calling_socket, w) on = (refl, refl, λ e. tt, λ b back. back)
set_up_turn-Progress st (setting_reuse fd, w) on = (refl, refl, λ e. tt, λ b back. back)
set_up_turn-Progress st (setting_v6only fd, w) on = (refl, refl, λ e. tt, λ b back. back)
set_up_turn-Progress st (binding fd addr, w) on = (refl, refl, λ e. tt, λ b back. back)
set_up_turn-Progress st (listening fd, w) on = (refl, refl, λ e. tt, λ b back. back)

set_up_turn-Neat :
    {World : Type 0} (st : Starting) (c : SetUp × World)
    → Neat st.process
    → Neat (set_up_turn st c).0.process
set_up_turn-Neat st (made fd, w) neat = neat
set_up_turn-Neat st (broken_off fd, w) neat = neat
set_up_turn-Neat st (calling_socket, w) neat = neat
set_up_turn-Neat st (setting_reuse fd, w) neat = neat
set_up_turn-Neat st (setting_v6only fd, w) neat = neat
set_up_turn-Neat st (binding fd addr, w) neat = neat
set_up_turn-Neat st (listening fd, w) neat = neat

module _ {World : Type 0} (os : Os World) where
  start_step-Progress :
      (at : Phase) (st : Starting) (w : World)
      → st.process.running.phase ≡ at
      → NotMade st
      → Progress st (start_step os at st w).0
  start_step-Progress created st w at not_made =
      let on : returned_of st.process.running.phase ≡ none = ap returned_of at in
      elim (Bool-cases (is_invalid st.process.running.server.fd)) [
        | inl e ↦ rw e (
            set_up_turn-Progress st (set_up_step os st.process.running.server.engine st.set_up w)
              on)
        | inr e ↦ rw e (refl, refl, λ made_up. cc, λ b back. cc)
      ]
  start_step-Progress accepting st w at not_made =
      let r = st.process.running in
      let on : returned_of r.phase ≡ none = ap returned_of at in
      elim (Bool-cases (is_neg (os.accept r.server.fd w).0.fd)) [
        | inl bad ↦ rw (accept_client-refused os r.server w bad) (refl, refl, λ e. cc, λ b back. cc)
        | inr ok ↦ rw (accept_client-admits os r.server w ok) (refl, refl, not_made, λ b back. back)
      ]
  start_step-Progress unset st w at not_made = (refl, refl, not_made, λ b back. back)
  start_step-Progress left st w at not_made = (refl, refl, not_made, λ b back. back)

  ends-SamePlace :
      (c : Option (Session × List Session)) (p : Process) (w : World)
      → SamePlace p (thread_end os c p w).0 × (Swept p → Swept (thread_end os c p w).0)
  ends-SamePlace none p w = ((refl, λ lost. lost), λ swept. swept)
  ends-SamePlace (some (x, rest)) p w = by_server p.has_server refl
    where
      by_server :
          (b : Bool)
          → p.has_server ≡ b
          → SamePlace p (release os b x rest p w).0 × (Swept p → Swept (release os b x rest p w).0)
      by_server true has = ((refl, λ lost. lost), λ swept lost. cc)
      by_server false lost = ((refl, λ lost. lost), λ swept. swept)

  drops-SamePlace :
      (b : Bool) (p : Process) (w : World)
      → SamePlace p (if b then drop_server os p w else (p, w)).0
        × (Swept p → Swept (if b then drop_server os p w else (p, w)).0)
  drops-SamePlace true p w = ((refl, λ lost. refl), λ swept lost. refl)
  drops-SamePlace false p w = ((refl, λ lost. lost), λ swept. swept)

  returned-SamePlace :
      (p p' : Process) (b : Bool)
      → SamePlace p p'
      → thread_returned p.has_server p.running.phase ≡ some b
      → thread_returned p'.has_server p'.running.phase ≡ some b
  returned-SamePlace p p' b (at, goes) back = elim (Bool-cases p.has_server) [
    | inl has ↦ absurd (has_none p.has_server has back)
    | inr lost ↦
        ap (λ a. thread_returned a p'.running.phase) (goes lost)
        ∙ ap (thread_returned false) at
        ∙ sym (ap (λ a. thread_returned a p.running.phase) lost)
        ∙ back
  ]
    where
      has_none : (a : Bool) → a ≡ true → thread_returned a p.running.phase ≡ some b → ⊥
      has_none true has e = cc
      has_none false has e = cc

  returned-serves :
      (st st' : Starting) (b : Bool)
      → Progress st st'
      → engine_returned st ≡ some b
      → engine_returned st' ≡ some b
  returned-serves st st' b (has, queued, not_made, stays) back =
      ap (λ a. thread_returned a st'.process.running.phase) has
      ∙ by_server st.process.has_server back
    where
      by_server :
          (a : Bool)
          → thread_returned a st.process.running.phase ≡ some b
          → thread_returned a st'.process.running.phase ≡ some b
      by_server true e = cc
      by_server false e = stays b e

  -- A thread that is back is not before the set-up.
  back-NotMade : (st : Starting) (b : Bool) → engine_returned st ≡ some b → NotMade st
  back-NotMade st b back at =
      absurd
        (never st.process.has_server (ap (thread_returned st.process.has_server) (sym at) ∙ back))
    where
      never : (a : Bool) → thread_returned a created ≡ some b → ⊥
      never true e = cc
      never false e = cc

  pub engine_stays :
      (e : Happening) (st : Starting) (w : World) (b : Bool)
      → engine_returned st ≡ some b
      → engine_returned (starting_step os e (st, w)).0 ≡ some b
  unfolding starting_step happen
  engine_stays (of_thread serves) st w b back =
      returned-serves st (start_step os st.process.running.phase st w).0 b
        (start_step-Progress st.process.running.phase st w refl (back-NotMade st b back)) back
  engine_stays (of_thread (turns i t)) st w b back = back
  engine_stays (thread_ends i) st w b back =
      let p = st.process in
      let c = pick i p.running.sessions in
      returned-SamePlace p (thread_end os c p w).0 b (ends-SamePlace c p w).0 back
  engine_stays drops_server st w b back =
      let p = st.process in
      let goes = p.has_server && is_back p.running.phase in
      returned-SamePlace p (if goes then drop_server os p w else (p, w)).0 b
        (drops-SamePlace goes p w).0 back

  abbrev pub engine_threads : ServerThreads World Starting Happening
  engine_threads = record {
    advance = starting_step os;
    returned = engine_returned;
    stays_returned = engine_stays;
  }

  -- What the steps of a server keep beside the account of the descriptors.
  abbrev pub Fit : Starting → Type 0
  Fit st = NotMade st × Swept st.process × Neat st.process

  start_step-Neat :
      (at : Phase) (st : Starting) (w : World)
      → st.process.running.phase ≡ at
      → Neat st.process
      → Neat (start_step os at st w).0.process
  start_step-Neat created st w at neat =
      elim (Bool-cases (is_invalid st.process.running.server.fd)) [
        | inl e ↦
            rw e (
              set_up_turn-Neat st (set_up_step os st.process.running.server.engine st.set_up w)
                neat)
        | inr e ↦ rw e neat
      ]
  start_step-Neat accepting st w at (all, queued) =
      (start_at-Settled os accepting st.process.running w at all, queued)
  start_step-Neat unset st w at neat = neat
  start_step-Neat left st w at neat = neat

  pub starting_step-Fit :
      (e : Happening) (st : Starting) (w : World) → Fit st → Fit (starting_step os e (st, w)).0
  unfolding starting_step happen
  starting_step-Fit (of_thread serves) st w (not_made, swept, neat) =
      let (has, queued, still, stays) =
        start_step-Progress st.process.running.phase st w refl not_made in
      (
        still,
        λ lost. queued ∙ swept (sym has ∙ lost),
        start_step-Neat st.process.running.phase st w refl neat,
      )
  starting_step-Fit (of_thread (turns i t)) st w (not_made, swept, neat) =
      (not_made, swept, happen-Neat os (of_thread (turns i t)) st.process w neat)
  starting_step-Fit (thread_ends i) st w (not_made, swept, neat) =
      let ((same, goes), sweeps) =
        ends-SamePlace (pick i st.process.running.sessions) st.process w in
      (
        λ at. not_made (sym same ∙ at),
        sweeps swept,
        happen-Neat os (thread_ends i) st.process w neat,
      )
  starting_step-Fit drops_server st w (not_made, swept, neat) =
      let ((same, goes), sweeps) =
        drops-SamePlace (st.process.has_server && is_back st.process.running.phase) st.process w in
      (λ at. not_made (sym same ∙ at), sweeps swept, happen-Neat os drops_server st.process w neat)
