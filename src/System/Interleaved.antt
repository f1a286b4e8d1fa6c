-- ===== src/System/Interleaved.antt =====
-- What the account of the open descriptors says of a broker server (ThreadsTcpBroServer.cpp,
-- ThreadsTcp6BroServer.cpp) whose clients come and go while its threads run in any order.
use net_utils.Base.{
  ℕ, zero, suc, ◌+◌, ◌≡◌, ◌≢◌, refl, sym, ap, subst, ◌∙◌, Bool, true, false, List, [], ◌∷◌, Option,
  All, none, some, ℤ, pos, negsuc, arith,
}
use net_utils.Context.{invalid_fd, is_invalid, destroy}
use net_utils.Os.{Os, OsLaws}
use net_utils.Server.{Server, accept_client, stop}
use net_utils.Worker.Closing.{is_fd}
use net_utils.System.Threads.{
  Phase, created, accepting, unset, left, Session, Running, new_running, Event, serves, turns,
  admitted, start_at, advance, advance_all, destroy_all, context_now,
}
use net_utils.System.Accounts.{Level, one_if, holders, Accounted, closed-Accounted}
use net_utils.System.Ledger.{Kept, advance_all-Kept}

-- The thread of `start` has set up the listening socket.
abbrev pub Listening : Phase → Type 0
Listening created = ⊥
Listening accepting = Unit
Listening unset = ⊥
Listening left = Unit

one_if_inj : (a b : Bool) → one_if a ≡ one_if b → a ≡ b
one_if_inj a b e = ground arith

module _ {World : Type 0} (os : Os World) where
  admitted-Listening :
      (r : Running) (c : Option Server × World)
      → Listening r.phase
      → Listening (admitted os r c).0.phase
  admitted-Listening r (none, w) l = tt
  admitted-Listening r (some s, w) l = l

  start_at-Listening :
      (p : Phase) (r : Running) (w : World)
      → r.phase ≡ p
      → Listening p
      → Listening (start_at os p r w).0.phase
  start_at-Listening created r w at l = absurd l
  start_at-Listening accepting r w at l =
      admitted-Listening r (accept_client os r.server w) (subst Listening (sym at) l)
  start_at-Listening unset r w at l = absurd l
  start_at-Listening left r w at l = subst Listening (sym at) l

  advance-Listening :
      (e : Event) (r : Running) (w : World)
      → Listening r.phase
      → Listening (advance os e (r, w)).0.phase
  unfolding advance
  advance-Listening serves r w l = start_at-Listening r.phase r w refl l
  advance-Listening (turns i t) r w l = l

  advance_all-Listening :
      (events : List Event) (r : Running) (w : World)
      → Listening r.phase
      → Listening (advance_all os events (r, w)).0.phase
  unfolding advance_all
  advance_all-Listening [] r w l = l
  advance_all-Listening (e ∷ events) r w l =
      let (r', w') = advance os e (r, w) in
      advance_all-Listening events r' w' (advance-Listening e r w l)

  Kept-Listening :
      (p : Phase) (others : ℤ → ℕ → ℕ) (r : Running) (w : World)
      → Listening p
      → Kept os p others r w
      → Accounted os (others r.server.fd) r.sessions w
  Kept-Listening created others r w l kept = absurd l
  Kept-Listening accepting others r w l kept = kept
  Kept-Listening unset others r w l kept = absurd l
  Kept-Listening left others r w l kept = kept

  Listening-Kept :
      (p : Phase) (others : ℤ → ℕ → ℕ) (r : Running) (w : World)
      → Listening p
      → Accounted os (others r.server.fd) r.sessions w
      → Kept os p others r w
  Listening-Kept created others r w l acc = absurd l
  Listening-Kept accepting others r w l acc = acc
  Listening-Kept unset others r w l acc = tt
  Listening-Kept left others r w l acc = acc

  module _ (laws : OsLaws os) where
    -- `close` unless the number is `INVALID_FD`, as the destructor of a context and `stop` do.
    close_valid-is_open :
        (fd : ℤ) (w : World) (n : ℕ)
        → os.is_open (elim (is_invalid fd) [ true ↦ w | false ↦ os.close fd w ]) n
          ≡ os.is_open (os.close fd w) n
    close_valid-is_open (pos m) w n = refl
    close_valid-is_open (negsuc zero) w n = sym (laws.close_negative 0 w n)
    close_valid-is_open (negsuc (suc k)) w n = refl

    pub destroy_all-Accounted :
        (others : ℕ → ℕ) (xs : List Session) (w : World)
        → All Level xs
        → Accounted os others xs w
        → (n : ℕ) → one_if (os.is_open (destroy_all os xs w) n) ≡ others n
    destroy_all-Accounted others [] w level acc n = omega (arith, acc n)
    destroy_all-Accounted others (x ∷ xs) w level acc n =
        destroy_all-Accounted others xs (destroy os (context_now x) w) level.1
          (λ m.
            ap one_if (close_valid-is_open x.worker.client_fd w m)
            ∙ closed-Accounted os laws x.worker.client_fd w m (others m + holders m xs)
                (omega (arith, acc m, ap (λ fd. one_if (is_fd m fd)) level.0)))
          n

    stop-Accounted :
        (others : ℕ → ℕ) (s : Server) (xs : List Session) (w : World)
        → Accounted os (λ n. others n + one_if (is_fd n s.fd)) xs w
        → Accounted os others xs (stop os s w)
    unfolding stop
    stop-Accounted others s xs w acc = λ n.
        ap one_if (close_valid-is_open s.fd w n)
        ∙ closed-Accounted os laws s.fd w n (others n + holders n xs) (omega (arith, acc n))

    pub Kept-unset :
        (p : Phase) (others : ℤ → ℕ → ℕ) (r : Running) (w : World)
        → p ≢ unset
        → Kept os p others r w
        → Accounted os (others r.server.fd) r.sessions w
    Kept-unset created others r w fine (fresh, none_yet, adds, acc) = rw (fresh, none_yet) acc
    Kept-unset accepting others r w fine kept = kept
    Kept-unset unset others r w fine kept = absurd (fine refl)
    Kept-unset left others r w fine kept = kept

    -- What was open before `start`, and the socket.
    abbrev pub before : World → ℤ → ℕ → ℕ
    before w fd n = one_if (os.is_open w n) + one_if (is_fd n fd)

    new_running-Kept :
        (s : Server) (w : World) → s.fd ≡ invalid_fd → Kept os created (before w) (new_running s) w
    new_running-Kept s w fresh = (fresh, refl, λ fd n. omega arith, λ n. omega arith)

    ran-Kept :
        (s : Server) (events : List Event) (w w' : World) (r : Running)
        → s.fd ≡ invalid_fd
        → advance_all os events (new_running s, w) ≡ (r, w')
        → Kept os r.phase (before w) r w'
    ran-Kept s events w w' r fresh ran =
        subst (λ c. Kept os c.0.phase (before w) c.0 c.1) ran
          (advance_all-Kept os laws (before w) events (new_running s) w
            (new_running-Kept s w fresh))

    -- With a system that keeps `OsLaws`: start a broker server of either class that has no
    -- descriptor, and let its threads run in any order, clients coming and going and their numbers
    -- being given out again. Unless the set-up of the listening socket has failed, the descriptors
    -- that are open are those that were open before, the listening socket and those that the
    -- contexts of the clients hold, and no two of these holders have the same descriptor.
    pub advance_all-Accounted :
        (s : Server) (events : List Event) (w w' : World) (r : Running)
        → s.fd ≡ invalid_fd
        → advance_all os events (new_running s, w) ≡ (r, w')
        → r.phase ≢ unset
        → (n : ℕ)
        → one_if (os.is_open w' n)
          ≡ one_if (os.is_open w n) + one_if (is_fd n r.server.fd) + holders n r.sessions
    advance_all-Accounted s events w w' r fresh ran fine n =
        Kept-unset r.phase (before w) r w' fine (ran-Kept s events w w' r fresh ran) n

    -- With a system that keeps `OsLaws`: start a broker server of either class that has no
    -- descriptor, and let its threads run in any order; when the listening socket has been set up,
    -- another thread calls `stop`, and the threads go on in any order, until none stands between
    -- `close` and the assignment after it (such a thread keeps its context). Once the contexts of all
    -- clients have been destroyed, whether or not their workers have closed them, the same
    -- descriptors are open as before `start`.
    pub stopped-restored :
        (s : Server) (events events' : List Event) (w w1 w2 : World) (r1 r2 : Running)
        → s.fd ≡ invalid_fd
        → advance_all os events (new_running s, w) ≡ (r1, w1)
        → Listening r1.phase
        → advance_all os events' (r1, stop os r1.server w1) ≡ (r2, w2)
        → All Level r2.sessions
        → (n : ℕ) → os.is_open (destroy_all os r2.sessions w2) n ≡ os.is_open w n
    stopped-restored s events events' w w1 w2 r1 r2 fresh ran listening ran' level n =
        let others : ℕ → ℕ = λ m. one_if (os.is_open w m) in
        let now =
          Kept-Listening r1.phase (before w) r1 w1 listening
            (ran-Kept s events w w1 r1 fresh ran) in
        let stopped =
          Listening-Kept r1.phase (λ fd. others) r1 (stop os r1.server w1) listening
            (stop-Accounted others r1.server r1.sessions w1 now) in
        let kept =
          subst (λ c. Kept os c.0.phase (λ fd. others) c.0 c.1) ran'
            (advance_all-Kept os laws (λ fd. others) events' r1 (stop os r1.server w1) stopped) in
        let still =
          subst (λ c. Listening c.0.phase) ran'
            (advance_all-Listening events' r1 (stop os r1.server w1) listening) in
        one_if_inj (os.is_open (destroy_all os r2.sessions w2) n) (os.is_open w n) (
          destroy_all-Accounted others r2.sessions w2 level
            (Kept-Listening r2.phase (λ fd. others) r2 w2 still kept) n)
