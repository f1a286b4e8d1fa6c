-- ===== src/System/Lifetimes/Ledger.antt =====
-- The open descriptors while the contexts of the clients come and go with those that keep them.
use net_utils.Base.{
  ℕ, ◌+◌, ◌≡◌, ◌≢◌, inl, inr, refl, subst, Bool, true, false, Bool-cases, ◌&&◌, List, [], ◌∷◌, ◌++◌,
  ℤ, arith,
}
use net_utils.Context.{invalid_fd}
use net_utils.Os.{Os, OsLaws}
use net_utils.Server.{Server}
use net_utils.Worker.Closing.{is_fd}
use net_utils.System.Threads.{Phase, created, accepting, unset, left, Session, Running, destroy_all}
use net_utils.System.Accounts.{one_if, holders, holders-append, Accounted}
use net_utils.System.Ledger.{Kept, advance-Kept}
use net_utils.System.Interleaved.{destroy_all-Accounted, before, Kept-unset}
use net_utils.System.Lifetimes.Picks.{Picks, here, there, pick-Picks}
use net_utils.System.Lifetimes.Neat.{Neat, Picks-Level, happen-Neat}
use net_utils.System.Lifetimes.{
  Process, new_process, Happening, of_thread, thread_ends, drops_server, is_back, release,
  drop_server, happen, happen_all,
}

Picks-holders :
    {x : Session} {rest xs : List Session} (n : ℕ)
    → Picks x rest xs
    → holders n xs ≡ holders n rest + holders n (x ∷ [])
Picks-holders n (here over) = omega arith
Picks-holders n (there picks) = omega (arith, Picks-holders n picks)

Picks-ne-nil : {x : Session} {rest xs : List Session} {A : Type 0} → Picks x rest xs → xs ≡ [] → A
Picks-ne-nil (here over) e = cc
Picks-ne-nil (there picks) e = cc

-- The queue of the server holds its contexts beside those of the threads.
abbrev pub with_queue : (ℤ → ℕ → ℕ) → List Session → ℤ → ℕ → ℕ
with_queue others queued fd n = others fd n + holders n queued

module _ {World : Type 0} (os : Os World) where
  abbrev pub KeptBy : (ℤ → ℕ → ℕ) → Process → World → Type 0
  KeptBy others p w = Kept os p.running.phase (with_queue others p.queued) p.running w

  -- A session leaves the threads, and the account of those that listen goes on without it.
  picked-Kept :
      (at : Phase) (others others' : ℤ → ℕ → ℕ) (r : Running) (w w' : World) (x : Session)
      (rest : List Session)
      → Picks x rest r.sessions
      → (Accounted os (others r.server.fd) r.sessions w
          → Accounted os (others' r.server.fd) rest w')
      → Kept os at others r w
      → Kept os at others' (record r { sessions = rest }) w'
  picked-Kept created others others' r w w' x rest picks f (fresh, none_yet, adds, acc) =
      Picks-ne-nil picks none_yet
  picked-Kept accepting others others' r w w' x rest picks f acc = f acc
  picked-Kept unset others others' r w w' x rest picks f kept = tt
  picked-Kept left others others' r w w' x rest picks f acc = f acc

  dropped-Kept :
      (at : Phase) (others others' : ℤ → ℕ → ℕ) (r : Running) (w w' : World)
      → is_back at ≡ true
      → (Accounted os (others r.server.fd) r.sessions w
          → Accounted os (others' r.server.fd) r.sessions w')
      → Kept os at others r w
      → Kept os at others' r w'
  dropped-Kept created others others' r w w' back f kept = cc
  dropped-Kept accepting others others' r w w' back f kept = cc
  dropped-Kept unset others others' r w w' back f kept = tt
  dropped-Kept left others others' r w w' back f acc = f acc

  module _ (laws : OsLaws os) where
    -- What the contexts hold that the queue or a thread keeps, beside `o`.
    pub release-Accounted :
        (b : Bool) (o : ℕ → ℕ) (p : Process) (w : World) (x : Session) (rest : List Session)
        → Picks x rest p.running.sessions
        → Neat p
        → Accounted os (λ n. o n + holders n p.queued) p.running.sessions w
        → Accounted os
            (λ n. o n + holders n (release os b x rest p w).0.queued)
            rest
            (release os b x rest p w).1
    release-Accounted true o p w x rest picks neat acc =
        λ n. omega (arith, acc n, holders-append n p.queued (x ∷ []), Picks-holders n picks)
    release-Accounted false o p w x rest picks neat acc = λ n. omega (
      arith,
      destroy_all-Accounted os laws (λ m. o m + holders m p.queued + holders m rest) (x ∷ []) w
          ((Picks-Level picks neat.0).0, tt) (λ m. omega (arith, acc m, Picks-holders m picks)) n,
    )

    pub drop_server-Accounted :
        (o : ℕ → ℕ) (p : Process) (w : World)
        → Neat p
        → Accounted os (λ n. o n + holders n p.queued) p.running.sessions w
        → Accounted os o p.running.sessions (drop_server os p w).1
    drop_server-Accounted o p w neat acc = λ n. omega (
      arith,
      destroy_all-Accounted os laws (λ m. o m + holders m p.running.sessions) p.queued w neat.1
          (λ m. omega (arith, acc m)) n,
    )

    release-Kept :
        (b : Bool) (others : ℤ → ℕ → ℕ) (p : Process) (w : World) (x : Session)
        (rest : List Session)
        → Picks x rest p.running.sessions
        → Neat p
        → KeptBy others p w
        → KeptBy others (release os b x rest p w).0 (release os b x rest p w).1
    release-Kept true others p w x rest picks neat =
        picked-Kept p.running.phase (with_queue others p.queued)
          (with_queue others (p.queued ++ x ∷ [])) p.running w w x rest picks
          (release-Accounted true (others p.running.server.fd) p w x rest picks neat)
    release-Kept false others p w x rest picks neat =
        picked-Kept p.running.phase (with_queue others p.queued) (with_queue others p.queued)
          p.running w (destroy_all os (x ∷ []) w) x rest picks
          (release-Accounted false (others p.running.server.fd) p w x rest picks neat)

    drop_server-Kept :
        (others : ℤ → ℕ → ℕ) (p : Process) (w : World)
        → is_back p.running.phase ≡ true
        → Neat p
        → KeptBy others p w
        → KeptBy others (drop_server os p w).0 (drop_server os p w).1
    drop_server-Kept others p w back neat =
        dropped-Kept p.running.phase (with_queue others p.queued) (with_queue others []) p.running w
          (destroy_all os p.queued w) back
          λ acc n. omega (arith, drop_server-Accounted (others p.running.server.fd) p w neat acc n)

    pub happen-Kept :
        (others : ℤ → ℕ → ℕ) (e : Happening) (p : Process) (w : World)
        → Neat p
        → KeptBy others p w
        → KeptBy others (happen os e (p, w)).0 (happen os e (p, w)).1
    unfolding happen
    happen-Kept others (of_thread e) p w neat kept =
        advance-Kept os laws (with_queue others p.queued) e p.running w kept
    happen-Kept others (thread_ends i) p w neat kept = elim (pick-Picks i p.running.sessions) [
      | inl e ↦ rw e kept
      | inr (x, rest, e, picks) ↦ rw e (release-Kept p.has_server others p w x rest picks neat kept)
    ]
    happen-Kept others drops_server p w neat kept =
        elim (Bool-cases (p.has_server && is_back p.running.phase)) [
          | inl goes ↦ rw goes (drop_server-Kept others p w (and_right p.has_server goes) neat kept)
          | inr stays ↦ rw stays kept
        ]
      where
        and_right : (a : Bool) {b : Bool} → a && b ≡ true → b ≡ true
        and_right true e = e
        and_right false e = cc

    happen_all-Kept :
        (others : ℤ → ℕ → ℕ) (events : List Happening) (p : Process) (w : World)
        → Neat p
        → KeptBy others p w
        → KeptBy others (happen_all os events (p, w)).0 (happen_all os events (p, w)).1
    unfolding happen_all
    happen_all-Kept others [] p w neat kept = kept
    happen_all-Kept others (e ∷ events) p w neat kept =
        let (p', w') = happen os e (p, w) in
        happen_all-Kept others events p' w' (happen-Neat os e p w neat)
          (happen-Kept others e p w neat kept)

    -- What was open before, for a server that has not started.
    pub new_process-Kept :
        (base : ℕ → ℕ) (s : Server) (w : World)
        → s.fd ≡ invalid_fd
        → ((n : ℕ) → one_if (os.is_open w n) ≡ base n)
        → KeptBy (λ fd n. base n + one_if (is_fd n fd)) (new_process s) w
    new_process-Kept base s w fresh total =
        (fresh, refl, λ fd n. omega arith, λ n. omega (arith, total n))

    -- With a system that keeps `OsLaws`: start a broker server of either class that has no
    -- descriptor, and let its threads run, the threads of its workers end and the server be dropped
    -- in any order. Unless the set-up of the listening socket has failed, the descriptors that are
    -- open are those that were open before, the listening socket (which no destructor closes) and
    -- those that the contexts hold which a thread or the server's queue still keeps; none is held
    -- twice (a context whose descriptor a thread has closed and not cleared yet holds none), and a
    -- context that has been destroyed has left none open.
    pub happen_all-Accounted :
        (s : Server) (events : List Happening) (w w' : World) (p : Process)
        → s.fd ≡ invalid_fd
        → happen_all os events (new_process s, w) ≡ (p, w')
        → p.running.phase ≢ unset
        → (n : ℕ)
        → one_if (os.is_open w' n)
          ≡ one_if (os.is_open w n)
            + one_if (is_fd n p.running.server.fd)
            + holders n p.queued
            + holders n p.running.sessions
    happen_all-Accounted s events w w' p fresh ran fine n =
        Kept-unset os laws p.running.phase (with_queue (before os laws w) p.queued) p.running w'
          fine
          (subst (λ c. KeptBy (before os laws w) c.0 c.1) ran
            (happen_all-Kept (before os laws w) events (new_process s) w (tt, tt)
              (new_process-Kept (λ m. one_if (os.is_open w m)) s w fresh λ m. refl)))
          n
