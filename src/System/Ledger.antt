-- ===== src/System/Ledger.antt =====
-- The account of the open descriptors along the steps of a broker server.
use net_utils.Base.{
  ℕ, ◌+◌, ◌≡◌, inl, inr, refl, ap, true, false, Bool-cases, List, [], ◌∷◌, ◌++◌, map, drop_front,
  Option, none, some, ℤ, pos, negsuc, is_neg, arith,
}
use net_utils.Context.{invalid_fd, is_invalid}
use net_utils.Os.{Accepted, Os, OsLaws, Opens}
use net_utils.Engine.{Engine}
use net_utils.Engine.Init.{init_listening_socket}
use net_utils.Engine.Init.Descriptors.{Listens, init_listening_socket-Listens}
use net_utils.Server.{Server, context_for, admit, accept_client}
use net_utils.Server.Accepting.{
  admit-fd, context_for-client_fd, accept_client-refused, accept_client-admits,
}
use net_utils.Worker.{Turn}
use net_utils.Worker.Closing.{is_fd}
use net_utils.System.Shutdown.{Listens-some}
use net_utils.System.Threads.{
  Phase, created, accepting, unset, left, Session, new_session, Running, spawned, Event, serves,
  turns, set_up, admitted, nth_step, start_at, advance, advance_all,
}
use net_utils.System.Accounts.{one_if, holders-append, Accounted, nth_step-Accounted}

module _ {World : Type 0} (os : Os World) where
  -- What is held beside the contexts of the sessions, by the number that the server has in `mFd`:
  -- a server that sets up its socket adds this one descriptor.
  abbrev pub AddsSocket : (ℤ → ℕ → ℕ) → Type 0
  AddsSocket others = (fd : ℤ) (n : ℕ) → others fd n ≡ others invalid_fd n + one_if (is_fd n fd)

  -- Each descriptor is open once for `others` and the contexts of the sessions together, unless the
  -- set-up of the socket has failed.
  abbrev pub Kept : Phase → (ℤ → ℕ → ℕ) → Running → World → Type 0
  Kept created others r w =
      (r.server.fd ≡ invalid_fd)
      × (r.sessions ≡ [])
      × AddsSocket others
      × Accounted os (others invalid_fd) [] w
  Kept accepting others r w = Accounted os (others r.server.fd) r.sessions w
  Kept unset others r w = Unit
  Kept left others r w = Accounted os (others r.server.fd) r.sessions w

  pub opened_one :
      (fd : ℤ) (w w' : World) (n : ℕ)
      → Opens os w fd w'
      → one_if (os.is_open w' n) ≡ one_if (os.is_open w n) + one_if (is_fd n fd)
  opened_one (pos m) w w' n (before, now, keeps) = ground (arith, keeps n)
  opened_one (negsuc k) w w' n opens = omega (arith, ap one_if (opens n))

  pub spawned-admit :
      (a : Accepted) (s : Server)
      → spawned s (admit os a s) ≡ new_session (context_for os s.server_class a) ∷ []
  unfolding admit
  spawned-admit a s =
      ap (map new_session) (drop_front s.workers (context_for os s.server_class a ∷ []))

  pub is_fd-neg : (n : ℕ) (fd : ℤ) → is_neg fd ≡ true → is_fd n fd ≡ false
  is_fd-neg n (pos m) bad = cc
  is_fd-neg n (negsuc k) bad = refl

  module _ (laws : OsLaws os) where
    pub refused-Accounted :
        (others : ℕ → ℕ) (xs : List Session) (fd : ℤ) (w : World)
        → is_neg (os.accept fd w).0.fd ≡ true
        → Accounted os others xs w
        → Accounted os others xs (os.accept fd w).1
    refused-Accounted others xs fd w bad acc = λ n. omega (
      arith,
      acc n,
      opened_one (os.accept fd w).0.fd w (os.accept fd w).1 n (laws.accept_opens fd w),
      ap one_if (is_fd-neg n (os.accept fd w).0.fd bad),
    )

    pub admits-Accounted :
        (others : ℕ → ℕ) (xs : List Session) (s : Server) (w : World)
        → Accounted os others xs w
        → Accounted os others
            (xs ++ spawned s (admit os (os.accept s.fd w).0 s))
            (os.accept s.fd w).1
    admits-Accounted others xs s w acc = λ n.
        let a = (os.accept s.fd w).0 in
        rw (spawned-admit a s) (
          omega (
            arith,
            acc n,
            holders-append n xs (new_session (context_for os s.server_class a) ∷ []),
            opened_one a.fd w (os.accept s.fd w).1 n (laws.accept_opens s.fd w),
            ap (λ fd. one_if (is_fd n fd)) (context_for-client_fd os s.server_class a),
          ))

    accepting-Kept :
        (others : ℤ → ℕ → ℕ) (r : Running) (w : World)
        → r.phase ≡ accepting
        → Accounted os (others r.server.fd) r.sessions w
        → Kept
            (admitted os r (accept_client os r.server w)).0.phase
            others
            (admitted os r (accept_client os r.server w)).0
            (admitted os r (accept_client os r.server w)).1
    accepting-Kept others r w at acc = elim (Bool-cases (is_neg (os.accept r.server.fd w).0.fd)) [
      | inl bad ↦
          rw (accept_client-refused os r.server w bad)
            (refused-Accounted (others r.server.fd) r.sessions r.server.fd w bad acc)
      | inr ok ↦
          rw
            (
              accept_client-admits os r.server w ok,
              at,
              admit-fd os (os.accept r.server.fd w).0 r.server,
            )
            (admits-Accounted (others r.server.fd) r.sessions r.server w acc)
    ]

    set_up-Kept :
        (others : ℤ → ℕ → ℕ) (r : Running) (w : World)
        → Kept created others r w
        → Kept
            (start_at os created r w).0.phase
            others
            (start_at os created r w).0
            (start_at os created r w).1
    set_up-Kept others r w (fresh, none_yet, adds, acc) =
        let invalid : is_invalid r.server.fd ≡ true = ap is_invalid fresh in
        rw invalid (
          by_result (init_listening_socket os r.server.engine w)
            (init_listening_socket-Listens os laws r.server.engine w))
      where
        by_result :
            (c : Option Engine × World)
            → Listens os r.server.engine.protocol_type r.server.engine w c
            → Kept (set_up os r c).0.phase others (set_up os r c).0 (set_up os r c).1
        by_result (none, w') listens = tt
        by_result (some e, w') listens =
            let (n, held, opens) =
              Listens-some os laws r.server.engine.protocol_type r.server.engine e w (some e, w')
                refl listens in
            rw none_yet (λ m. omega (
              arith,
              acc m,
              opened_one (pos n) w w' m opens,
              adds e.fd m,
              ap (λ fd. one_if (is_fd m fd)) held,
            ))

    start_at-Kept :
        (p : Phase) (others : ℤ → ℕ → ℕ) (r : Running) (w : World)
        → r.phase ≡ p
        → Kept p others r w
        → Kept (start_at os p r w).0.phase others (start_at os p r w).0 (start_at os p r w).1
    start_at-Kept created others r w at kept = set_up-Kept others r w kept
    start_at-Kept accepting others r w at kept = accepting-Kept others r w at kept
    start_at-Kept unset others r w at kept = rw at tt
    start_at-Kept left others r w at kept = rw at kept

    turns-Kept :
        (p : Phase) (others : ℤ → ℕ → ℕ) (i : ℕ) (t : Turn) (r : Running) (w : World)
        → Kept p others r w
        → Kept p others
            (record r { sessions = (nth_step os i t r.sessions w).0 })
            (nth_step os i t r.sessions w).1
    turns-Kept created others i t r w (fresh, none_yet, adds, acc) =
        rw none_yet (fresh, refl, adds, acc)
    turns-Kept accepting others i t r w acc =
        nth_step-Accounted os laws (others r.server.fd) i t r.sessions w acc
    turns-Kept unset others i t r w kept = tt
    turns-Kept left others i t r w acc =
        nth_step-Accounted os laws (others r.server.fd) i t r.sessions w acc

    pub advance-Kept :
        (others : ℤ → ℕ → ℕ) (e : Event) (r : Running) (w : World)
        → Kept r.phase others r w
        → Kept (advance os e (r, w)).0.phase others (advance os e (r, w)).0 (advance os e (r, w)).1
    unfolding advance
    advance-Kept others serves r w kept = start_at-Kept r.phase others r w refl kept
    advance-Kept others (turns i t) r w kept = turns-Kept r.phase others i t r w kept

    pub advance_all-Kept :
        (others : ℤ → ℕ → ℕ) (events : List Event) (r : Running) (w : World)
        → Kept r.phase others r w
        → Kept
            (advance_all os events (r, w)).0.phase
            others
            (advance_all os events (r, w)).0
            (advance_all os events (r, w)).1
    unfolding advance_all
    advance_all-Kept others [] r w kept = kept
    advance_all-Kept others (e ∷ events) r w kept =
        let (r', w') = advance os e (r, w) in
        advance_all-Kept others events r' w' (advance-Kept others e r w kept)
