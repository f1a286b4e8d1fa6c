-- ===== src/System/Lifetimes/Destructors.antt =====
-- When the destructors of the contexts run, and what they find there.
use mathlib.Mathlib.Data.Multiset.Defs.{of_list}
use net_utils.Base.{
  ◌≡◌, inl, inr, refl, sym, ap, subst, ◌∙◌, Bool, true, false, ◌&&◌, List, [], ◌∷◌, All, All-snoc,
  All-append, nonneg, arith, if◌then◌else◌,
}
use net_utils.Context.{invalid_fd}
use net_utils.Os.{Os}
use net_utils.Server.{ServerClass, threads_tcp, threads_tcp6, Server}
use net_utils.Worker.{MainPc, returned_true}
use net_utils.Worker.Closing.{returned-closed}
use net_utils.System.Broker.{OfClass-Untouched}
use net_utils.System.Threads.{Session, Event, advance}
use net_utils.System.Sessions.{advance-Each}
use net_utils.System.Traces.{
  AnyTurn, any_Takes, Traced, step-Traced, new_session-Traced, advance-Grows,
}
use net_utils.System.Lifetimes.{
  Process, new_process, Happening, of_thread, thread_ends, drops_server, is_over, is_back, release,
  thread_end, drop_server, happen, happen_all,
}
use net_utils.System.Lifetimes.Picks.{Picks, here, there, pick-Picks}
use net_utils.System.Lifetimes.Owners.{AllThere, happen-AllThere}

-- What `doWork` leaves in the context of an IPv4 client, and in that of an IPv6 client, which its
-- threads never touch.
abbrev pub LeftBehind : ServerClass → Session → Type 0
LeftBehind threads_tcp x = x.worker.client_fd ≡ invalid_fd
LeftBehind threads_tcp6 x = x.worker.client_fd ≡ x.context.client_fd

abbrev pub Ended : ServerClass → Session → Type 0
Ended c x = (x.worker.main ≡ returned_true) × LeftBehind c x

-- Each context is kept by a thread, or by the queue alone, or has been destroyed, once. The last two
-- are those whose `doWork` is back; nothing is destroyed before the server goes, and nothing stays in
-- the queue after.
pub record Owned (p : Process) : Type 0 where
  pub all_there : AllThere p
  pub queued_ended : All (Ended p.running.server.server_class) p.queued
  pub freed_ended : All (Ended p.running.server.server_class) p.freed
  pub before_drop : p.has_server ≡ true → p.freed ≡ []
  pub after_drop : p.has_server ≡ false → p.queued ≡ []

is_over-returned : (pc : MainPc) → is_over pc ≡ true → pc ≡ returned_true
is_over-returned pc e = ground arith

Picks-All :
    {x : Session} {rest xs : List Session} (P : Session → Type 0)
    → Picks x rest xs
    → All P xs
    → (x.worker.main ≡ returned_true) × P x × All P rest
Picks-All {x} P (here over) (p, all) = (is_over-returned x.worker.main over, p, all)
Picks-All P (there picks) (p, all) =
    let (over, px, others) = Picks-All P picks all in (over, px, (p, others))

Traced-Ended :
    (c : ServerClass) (x : Session) → x.worker.main ≡ returned_true → Traced c x → Ended c x
Traced-Ended threads_tcp x over (ok, (a, p, addr, empty), (ts, ran)) =
    let (n, held) = nonneg x.context.client_fd ok in
    let (reader, writer, gone, once) =
      returned-closed x.context n a p ts held addr (ap (λ w. w.main) (sym ran) ∙ over) in
    (over, ap (λ w. w.client_fd) ran ∙ gone)
Traced-Ended threads_tcp6 x over (ok, made, (ts, ran)) =
    (over, ap (λ w. w.client_fd) ran ∙ (OfClass-Untouched ts x.context ok made).keeps_fd)

-- The threads that have not ended, too, have come to where they are by turns of their own.
record Inv (p : Process) : Type 0 where
  owned : Owned p
  traced : All (Traced p.running.server.server_class) p.running.sessions

module _ {World : Type 0} (os : Os World) where
  advanced-Inv :
      (e : Event) (p : Process) (w : World)
      → Inv p
      → AllThere (record p { running = (advance os e (p.running, w)).0 })
      → Inv (record p { running = (advance os e (p.running, w)).0 })
  advanced-Inv e p w inv all =
      let (cs, grown, handed, class) = advance-Grows os e p.running w in
      record {
        owned = record {
          all_there = all;
          queued_ended = subst (λ c. All (Ended c) p.queued) (sym class) inv.owned.queued_ended;
          freed_ended = subst (λ c. All (Ended c) p.freed) (sym class) inv.owned.freed_ended;
          before_drop = inv.owned.before_drop;
          after_drop = inv.owned.after_drop;
        };
        traced =
            advance-Each os Traced AnyTurn (λ c t x q traced. step-Traced c t x traced)
              (new_session-Traced os) e p.running w (any_Takes e) inv.traced;
      }

  release-Inv :
      (b : Bool) (p : Process) (w : World) (x : Session) (rest : List Session)
      → p.has_server ≡ b
      → Picks x rest p.running.sessions
      → Inv p
      → AllThere (release os b x rest p w).0
      → Inv (release os b x rest p w).0
  release-Inv true p w x rest has picks inv all =
      let c = p.running.server.server_class in
      let (over, traced, others) = Picks-All (Traced c) picks inv.traced in
      record {
        owned = record {
          all_there = all;
          queued_ended =
              All-snoc (Ended c) p.queued x inv.owned.queued_ended (Traced-Ended c x over traced);
          freed_ended = inv.owned.freed_ended;
          before_drop = inv.owned.before_drop;
          after_drop = λ lost. cc;
        };
        traced = others;
      }
  release-Inv false p w x rest lost picks inv all =
      let c = p.running.server.server_class in
      let (over, traced, others) = Picks-All (Traced c) picks inv.traced in
      record {
        owned = record {
          all_there = all;
          queued_ended = inv.owned.queued_ended;
          freed_ended =
              All-snoc (Ended c) p.freed x inv.owned.freed_ended (Traced-Ended c x over traced);
          before_drop = λ has. cc;
          after_drop = inv.owned.after_drop;
        };
        traced = others;
      }

  drop_server-Inv :
      (p : Process) (w : World)
      → Inv p
      → AllThere (drop_server os p w).0
      → Inv (drop_server os p w).0
  drop_server-Inv p w inv all = record {
    owned = record {
      all_there = all;
      queued_ended = tt;
      freed_ended =
          All-append (Ended p.running.server.server_class) p.freed p.queued inv.owned.freed_ended
            inv.owned.queued_ended;
      before_drop = λ has. cc;
      after_drop = λ lost. refl;
    };
    traced = inv.traced;
  }

  happen-Inv :
      (e : Happening) (p : Process) (w : World)
      → AllThere (happen os e (p, w)).0
      → Inv p
      → Inv (happen os e (p, w)).0
  unfolding happen
  happen-Inv (of_thread e) p w all inv = advanced-Inv e p w inv all
  happen-Inv (thread_ends i) p w all inv = elim (pick-Picks i p.running.sessions) [
    | inl e ↦ subst (λ c. Inv (thread_end os c p w).0) (sym e) inv
    | inr (x, rest, e, picks) ↦
        subst (λ c. Inv (thread_end os c p w).0) (sym e)
          (release-Inv p.has_server p w x rest refl picks inv
            (subst (λ c. AllThere (thread_end os c p w).0) e all))
  ]
  happen-Inv drops_server p w all inv = by_test (p.has_server && is_back p.running.phase) all
    where
      by_test :
          (b : Bool)
          → AllThere (if b then drop_server os p w else (p, w)).0
          → Inv (if b then drop_server os p w else (p, w)).0
      by_test true placed = drop_server-Inv p w inv placed
      by_test false placed = inv

  happen_all-Inv :
      (events : List Happening) (p : Process) (w : World)
      → Inv p
      → Inv (happen_all os events (p, w)).0
  unfolding happen_all
  happen_all-Inv [] p w inv = inv
  happen_all-Inv (e ∷ events) p w inv =
      let (p', w') = happen os e (p, w) in
      happen_all-Inv events p' w'
        (happen-Inv e p w (happen-AllThere os e p w inv.owned.all_there) inv)

  -- Start a broker server of either class that has no worker yet, and let its threads run, the threads
  -- of its workers end and the server be dropped in any order. Each context that was handed to the
  -- processor is then in one of three places, and only once: a thread that has not ended keeps it, or
  -- the server's queue alone does, or it has been destroyed. No context is destroyed while the server
  -- lives, none stays in the queue after, and each one in the queue alone or destroyed is one whose
  -- `doWork` is back: in a ThreadsTcpBroServer its descriptor has been closed by then, so the
  -- destructor closes nothing, and in a ThreadsTcp6BroServer it is left for the destructor to close.
  pub happen_all-Owned :
      (s : Server) (events : List Happening) (w w' : World) (p : Process)
      → s.workers ≡ []
      → happen_all os events (new_process s, w) ≡ (p, w')
      → Owned p
  happen_all-Owned s events w w' p first ran =
      (subst (λ c. Inv c.0) ran
        (happen_all-Inv events (new_process s) w record {
          owned = record {
            all_there = ap of_list (sym first);
            queued_ended = tt;
            freed_ended = tt;
            before_drop = λ has. refl;
            after_drop = λ lost. refl;
          };
          traced = tt;
        })).owned
