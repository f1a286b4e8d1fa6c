-- ===== src/System/Lifetimes/Owners.antt =====
-- Who keeps the contexts of the clients, and when they are destroyed.
use mathlib.Core.List.{map-append, perm_append_singleton}
use mathlib.Core.Quot.{sound}
use mathlib.Mathlib.Data.Multiset.Defs.{Multiset, of_list}
use mathlib.Mathlib.Data.Multiset.ZeroCons.{cons, cons-swap}
use mathlib.Mathlib.Data.Multiset.AddSub.{add, add_comm, add_assoc, cons-add, add-cons, zero-add}
use net_utils.Base.{
  ◌≡◌, inl, inr, refl, sym, ap, ◌∙◌, Bool, true, false, Bool-cases, ◌&&◌, List, [], ◌∷◌, ◌++◌,
}
use net_utils.Context.{SocketContext}
use net_utils.Os.{Os}
use net_utils.System.Threads.{Session, Running, advance}
use net_utils.System.Traces.{contexts, contexts-snoc, Grows, advance-Grows}
use net_utils.System.Lifetimes.{
  Process, Happening, of_thread, thread_ends, drops_server, is_back, release, drop_server, happen,
}
use net_utils.System.Lifetimes.Picks.{Picks, here, there, pick-Picks}

-- The contexts of some sessions, in no order.
abbrev pub bag : List Session → Multiset SocketContext
bag xs = of_list (contexts xs)

-- The contexts that a thread keeps, those that only the queue keeps, and the destroyed ones.
abbrev pub everyone : Process → Multiset SocketContext
everyone p = add (bag p.running.sessions) (add (bag p.queued) (bag p.freed))

Picks-bag :
    {x : Session} {rest xs : List Session} → Picks x rest xs → bag xs ≡ cons x.context (bag rest)
Picks-bag (here over) = refl
Picks-bag {x} (there {y} {rest} picks) =
    ap (cons y.context) (Picks-bag picks) ∙ cons-swap y.context x.context (bag rest)

bag-snoc : (xs : List Session) (x : Session) → bag (xs ++ x ∷ []) ≡ cons x.context (bag xs)
bag-snoc xs x =
    ap of_list (contexts-snoc xs x) ∙ sound (perm_append_singleton x.context (contexts xs))

bag-append : (xs ys : List Session) → bag (xs ++ ys) ≡ add (bag xs) (bag ys)
bag-append xs ys = ap of_list (map-append _ xs ys)

-- A context that goes from the first list to the others.
moved :
    {x : Session} {rest xs : List Session} (m : Multiset SocketContext)
    → Picks x rest xs
    → add (bag rest) (cons x.context m) ≡ add (bag xs) m
moved {x} {rest} {xs} m picks =
    add-cons x.context (bag rest) m
    ∙ sym (cons-add x.context (bag rest) m)
    ∙ ap (λ s. add s m) (sym (Picks-bag picks))

-- Every context that was handed to the processor is somewhere, once.
abbrev pub AllThere : Process → Type 0
AllThere p = everyone p ≡ of_list p.running.server.workers

module _ {World : Type 0} (os : Os World) where
  grown-AllThere :
      (p : Process) (r : Running)
      → Grows p.running r
      → AllThere p
      → AllThere (record p { running = r })
  grown-AllThere p r (cs, grown, handed, class) all =
      let s = bag p.running.sessions in
      let q = add (bag p.queued) (bag p.freed) in
      ap (λ xs. add (of_list xs) q) grown
      ∙ add_assoc s (of_list cs) q
      ∙ ap (add s) (add_comm (of_list cs) q)
      ∙ sym (add_assoc s q (of_list cs))
      ∙ ap (λ m. add m (of_list cs)) all
      ∙ ap of_list (sym handed)

  release-AllThere :
      (b : Bool) (p : Process) (w : World) (x : Session) (rest : List Session)
      → Picks x rest p.running.sessions
      → AllThere p
      → AllThere (release os b x rest p w).0
  release-AllThere true p w x rest picks all =
      ap (λ m. add (bag rest) (add m (bag p.freed))) (bag-snoc p.queued x)
      ∙ ap (add (bag rest)) (cons-add x.context (bag p.queued) (bag p.freed))
      ∙ moved (add (bag p.queued) (bag p.freed)) picks
      ∙ all
  release-AllThere false p w x rest picks all =
      ap (λ m. add (bag rest) (add (bag p.queued) m)) (bag-snoc p.freed x)
      ∙ ap (add (bag rest)) (add-cons x.context (bag p.queued) (bag p.freed))
      ∙ moved (add (bag p.queued) (bag p.freed)) picks
      ∙ all

  drop_server-AllThere : (p : Process) (w : World) → AllThere p → AllThere (drop_server os p w).0
  drop_server-AllThere p w all =
      ap (add (bag p.running.sessions)) (
        zero-add (bag (p.freed ++ p.queued))
        ∙ bag-append p.freed p.queued
        ∙ add_comm (bag p.freed) (bag p.queued))
      ∙ all

  pub happen-AllThere :
      (e : Happening) (p : Process) (w : World) → AllThere p → AllThere (happen os e (p, w)).0
  unfolding happen
  happen-AllThere (of_thread e) p w all =
      grown-AllThere p (advance os e (p.running, w)).0 (advance-Grows os e p.running w) all
  happen-AllThere (thread_ends i) p w all = elim (pick-Picks i p.running.sessions) [
    | inl e ↦ rw e all
    | inr (x, rest, e, picks) ↦ rw e (release-AllThere p.has_server p w x rest picks all)
  ]
  happen-AllThere drops_server p w all =
      elim (Bool-cases (p.has_server && is_back p.running.phase)) [
        | inl goes ↦ rw goes (drop_server-AllThere p w all)
        | inr stays ↦ rw stays all
      ]
