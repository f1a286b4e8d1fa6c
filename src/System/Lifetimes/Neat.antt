-- ===== src/System/Lifetimes/Neat.antt =====
-- The contexts that ThreadsTcpBroProcessor.cpp's threads give up hold the descriptor that they name.
use net_utils.Base.{
  ◌≡◌, inl, inr, sym, subst, Bool, true, false, Bool-cases, ◌&&◌, List, [], ◌∷◌, All, All-append,
  arith,
}
use net_utils.Os.{Os}
use net_utils.Server.{context_for}
use net_utils.Worker.{returned_true}
use net_utils.Worker.Settled.{Settled, step-Settled, new_worker-Settled, Settled-held_fd}
use net_utils.System.Threads.{Phase, Session, Event, serves, turns, Running, start_at, advance}
use net_utils.System.Sessions.{Takes, advance-Each}
use net_utils.System.Accounts.{Level}
use net_utils.System.Lifetimes.{
  Process, Happening, of_thread, thread_ends, drops_server, is_over, is_back, release, thread_end,
  happen,
}
use net_utils.System.Lifetimes.Picks.{Picks, here, there, pick-Picks}

abbrev pub SettledIn : Session → Type 0
SettledIn x = Settled x.worker

abbrev pub Neat : Process → Type 0
Neat p = All SettledIn p.running.sessions × All Level p.queued

is_over-returned : (x : Session) → is_over x.worker.main ≡ true → x.worker.main ≡ returned_true
is_over-returned x e = ground arith

pub Picks-Level :
    {x : Session} {rest xs : List Session}
    → Picks x rest xs
    → All SettledIn xs
    → Level x × All SettledIn rest
Picks-Level {x} (here over) (s, all) = (Settled-held_fd x.worker s (is_over-returned x over), all)
Picks-Level (there picks) (s, all) =
    let (level, others) = Picks-Level picks all in (level, (s, others))

module _ {World : Type 0} (os : Os World) where
  pub advance-Settled :
      (e : Event) (r : Running) (w : World)
      → All SettledIn r.sessions
      → All SettledIn (advance os e (r, w)).0.sessions
  advance-Settled e r w all =
      advance-Each os (λ c x. SettledIn x) (λ t. Unit) (λ c t x q s. step-Settled t x.worker s)
        (λ c a ok. new_worker-Settled (context_for os c a)) e r w (takes e) all
    where
      takes : (e : Event) → Takes (λ t. Unit) e
      takes serves = tt
      takes (turns i t) = tt

  pub start_at-Settled :
      (at : Phase) (r : Running) (w : World)
      → r.phase ≡ at
      → All SettledIn r.sessions
      → All SettledIn (start_at os at r w).0.sessions
  unfolding advance
  start_at-Settled at r w e all =
      subst (λ p. All SettledIn (start_at os p r w).0.sessions) e (advance-Settled serves r w all)

  pub release-Neat :
      (b : Bool) (p : Process) (w : World) (x : Session) (rest : List Session)
      → Picks x rest p.running.sessions
      → Neat p
      → Neat (release os b x rest p w).0
  release-Neat true p w x rest picks (all, queued) =
      let (level, others) = Picks-Level picks all in
      (others, All-append Level p.queued (x ∷ []) queued (level, tt))
  release-Neat false p w x rest picks (all, queued) = ((Picks-Level picks all).1, queued)

  pub happen-Neat : (e : Happening) (p : Process) (w : World) → Neat p → Neat (happen os e (p, w)).0
  unfolding happen
  happen-Neat (of_thread e) p w (all, queued) = (advance-Settled e p.running w all, queued)
  happen-Neat (thread_ends i) p w neat = elim (pick-Picks i p.running.sessions) [
    | inl e ↦ rw e neat
    | inr (x, rest, e, picks) ↦
        subst (λ c. Neat (thread_end os c p w).0) (sym e)
          (release-Neat p.has_server p w x rest picks neat)
  ]
  happen-Neat drops_server p w neat = elim (Bool-cases (p.has_server && is_back p.running.phase)) [
    | inl goes ↦ rw goes (neat.0, tt)
    | inr stays ↦ rw stays neat
  ]
