-- ===== src/System/Lifetimes/Release.antt =====
-- The end of a broker server: `start` has returned, and the threads of the workers end.
use mathlib.Mathlib.Data.Multiset.Defs.{of_list}
use mathlib.Mathlib.Data.Multiset.AddSub.{add, zero-add}
use net_utils.Base.{
  ℕ, ◌+◌, ◌≡◌, ◌≢◌, refl, sym, ap, subst, ◌∙◌, Bool, true, false, ◌&&◌, if◌then◌else◌, none, some,
  List, [], ◌∷◌, ◌++◌, map, All, arith,
}
use net_utils.Context.{invalid_fd}
use net_utils.Os.{Os, OsLaws}
use net_utils.Server.{Server}
use net_utils.Worker.{returned_true}
use net_utils.Worker.Closing.{is_fd}
use net_utils.System.Threads.{unset, left, Session, Running}
use net_utils.System.Accounts.{one_if, holders}
use net_utils.System.Lifetimes.{
  Process, new_process, Happening, thread_ends, drops_server, is_over, is_back, pick, release,
  thread_end, drop_server, happen, happen_all,
}
use net_utils.System.Lifetimes.Ledger.{happen_all-Accounted}
use net_utils.System.Lifetimes.Owners.{bag, AllThere}
use net_utils.System.Lifetimes.Destructors.{happen_all-Owned}

abbrev pub IsOver : Session → Type 0
IsOver x = x.worker.main ≡ returned_true

abbrev pub ends : List Session → List Happening
ends xs = map (λ x. thread_ends 0) xs

-- The server goes, and the threads of the sessions end one after the other.
abbrev pub wind_up : List Session → List Happening
wind_up xs = drops_server ∷ ends xs

abbrev with_sessions : Running → List Session → Running
with_sessions r xs = record r { sessions = xs }

-- The threads have ended, and the rest is as it was.
abbrev Quits : Process → Process → Type 0
Quits p p' = (p'.running ≡ with_sessions p.running []) × (p'.has_server ≡ p.has_server)

module _ {World : Type 0} (os : Os World) where
  happen_all-append :
      (es fs : List Happening) (c : Process × World)
      → happen_all os (es ++ fs) c ≡ happen_all os fs (happen_all os es c)
  unfolding happen_all
  happen_all-append [] fs c = refl
  happen_all-append (e ∷ es) fs c = happen_all-append es fs (happen os e c)

  happen-ends :
      (p : Process) (w : World) (x : Session) (xs : List Session)
      → p.running.sessions ≡ x ∷ xs
      → IsOver x
      → ((happen os (thread_ends 0) (p, w)).0.running ≡ with_sessions p.running xs)
        × ((happen os (thread_ends 0) (p, w)).0.has_server ≡ p.has_server)
  unfolding happen
  happen-ends p w x xs first over =
      subst
        (λ c.
          ((thread_end os c p w).0.running ≡ with_sessions p.running xs)
          × ((thread_end os c p w).0.has_server ≡ p.has_server))
        (sym picked) (by_server p.has_server)
    where
      picked : pick 0 p.running.sessions ≡ some (x, xs)
      picked = ap (pick 0) first ∙ ap (λ pc. if is_over pc then some (x, xs) else none) over

      by_server :
          (b : Bool)
          → ((release os b x xs p w).0.running ≡ with_sessions p.running xs)
            × ((release os b x xs p w).0.has_server ≡ p.has_server)
      by_server true = (refl, refl)
      by_server false = (refl, refl)

  happen_all-ends :
      (xs : List Session) (p : Process) (w : World)
      → p.running.sessions ≡ xs
      → All IsOver xs
      → Quits p (happen_all os (ends xs) (p, w)).0
  unfolding happen_all
  happen_all-ends [] p w same all = (ap (with_sessions p.running) same, refl)
  happen_all-ends (x ∷ xs) p w same (over, all) =
      let (p', w') = happen os (thread_ends 0) (p, w) in
      let (goes, keeps) = happen-ends p w x xs same over in
      let (quit, kept) = happen_all-ends xs p' w' (ap (λ r. r.sessions) goes) all in
      (quit ∙ ap (λ r. with_sessions r []) goes, kept ∙ keeps)

  happen-drops :
      (p : Process) (w : World)
      → p.running.phase ≡ left
      → ((happen os drops_server (p, w)).0.running ≡ p.running)
        × ((happen os drops_server (p, w)).0.has_server ≡ false)
  unfolding happen
  happen-drops p w back = by_server p.has_server refl
    where
      by_server :
          (b : Bool)
          → p.has_server ≡ b
          → ((if b && is_back p.running.phase then drop_server os p w else (p, w)).0.running
              ≡ p.running)
            × ((if b && is_back p.running.phase then drop_server os p w else (p, w)).0.has_server
                ≡ false)
      by_server true has = rw back (refl, refl)
      by_server false lost = (refl, lost)

  happen_all-wind_up :
      (p : Process) (w : World)
      → p.running.phase ≡ left
      → All IsOver p.running.sessions
      → ((happen_all os (wind_up p.running.sessions) (p, w)).0.running ≡ with_sessions p.running [])
        × ((happen_all os (wind_up p.running.sessions) (p, w)).0.has_server ≡ false)
  unfolding happen_all
  happen_all-wind_up p w back all =
      let (p', w') = happen os drops_server (p, w) in
      let (same, gone) = happen-drops p w back in
      let (quit, kept) = happen_all-ends p.running.sessions p' w' (ap (λ r. r.sessions) same) all in
      (quit ∙ ap (λ r. with_sessions r []) same, kept ∙ gone)

  -- With a system that keeps `OsLaws`: start a broker server of either class that has no descriptor
  -- and no worker yet, and let its threads run, some of the threads of its workers end and the server
  -- be dropped in any order, until an `accept` has failed and `doWork` is back in every worker. When
  -- the server goes, unless it has gone before, and the threads end, every context that was handed to
  -- the processor has been destroyed, once; and the descriptors that are open are those that were
  -- open before `start` and the listening socket, which stays open.
  pub wind_up-frees :
      (laws : OsLaws os) (s : Server) (events : List Happening) (w w' : World) (p : Process)
      → s.fd ≡ invalid_fd
      → s.workers ≡ []
      → happen_all os events (new_process s, w) ≡ (p, w')
      → p.running.phase ≡ left
      → All IsOver p.running.sessions
      → (bag (happen_all os (wind_up p.running.sessions) (p, w')).0.freed
          ≡ of_list p.running.server.workers)
        × ((n : ℕ)
            → one_if (os.is_open (happen_all os (wind_up p.running.sessions) (p, w')).1 n)
              ≡ one_if (os.is_open w n) + one_if (is_fd n p.running.server.fd))
  wind_up-frees laws s events w w' p fresh first ran back all =
      let end = happen_all os (wind_up p.running.sessions) (p, w') in
      let (quit, gone) = happen_all-wind_up p w' back all in
      let whole : happen_all os (events ++ wind_up p.running.sessions) (new_process s, w) ≡ end =
        happen_all-append events (wind_up p.running.sessions) (new_process s, w)
        ∙ ap (happen_all os (wind_up p.running.sessions)) ran in
      let owned =
        happen_all-Owned os s (events ++ wind_up p.running.sessions) w end.1 end.0 first whole in
      let unqueued : end.0.queued ≡ [] = owned.after_drop gone in
      let fine : end.0.running.phase ≢ unset =
        λ e. left-ne-unset (sym (ap (λ r. r.phase) quit ∙ back) ∙ e) in
      (
        freed_all end.0 unqueued (ap (λ r. r.sessions) quit) owned.all_there
            ∙ ap (λ r. of_list r.server.workers) quit,
        λ n. omega (
          arith,
          happen_all-Accounted os laws s (events ++ wind_up p.running.sessions) w end.1 end.0 fresh
              whole fine n,
          ap (holders n) unqueued,
          ap (λ r. holders n r.sessions) quit,
          ap (λ r. one_if (is_fd n r.server.fd)) quit,
        ),
      )
    where
      left-ne-unset : left ≢ unset
      left-ne-unset e = cc

      freed_all :
          (q : Process)
          → q.queued ≡ []
          → q.running.sessions ≡ []
          → AllThere q
          → bag q.freed ≡ of_list q.running.server.workers
      freed_all q unqueued none_left placed =
          sym (zero-add (bag q.freed))
          ∙ sym (zero-add (add (bag []) (bag q.freed)))
          ∙ sym (
              ap (λ xs. add (bag xs) (add (bag q.queued) (bag q.freed))) none_left
              ∙ ap (λ xs. add (bag []) (add (bag xs) (bag q.freed))) unqueued)
          ∙ placed
