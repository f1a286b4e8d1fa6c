-- ===== src/Program/Shared.antt =====
-- The descriptors that are open while the two servers of ThreadsEchoEngine.cpp share one process.
use net_utils.Base.{ℕ, ◌+◌, ◌≡◌, ◌≢◌, ◌⊎◌, inl, inr, refl, ap, subst, ◌∙◌, List, [], ℤ, arith}
use net_utils.Context.{invalid_fd}
use net_utils.Os.{Os, OsLaws}
use net_utils.Engine.{new_engine_at}
use net_utils.Server.{threads_tcp_bro_server_at, threads_tcp6_bro_server_at}
use net_utils.Worker.Closing.{is_fd}
use net_utils.System.Threads.{
  Phase, created, accepting, unset, left, Running, Event, serves, turns, start_at, advance,
}
use net_utils.System.Accounts.{one_if, holders}
use net_utils.System.Ledger.{Kept, advance-Kept}
use net_utils.Program.Threads.{Program, ProgramEvent, program_run}
use net_utils.Program.Servers.{broker_threads, broker_program}
use net_utils.Program.Audit.{Audit, Joint, run-Joint}

-- How often a server holds descriptor n: as its listening socket, and in the contexts of its clients.
abbrev pub share : ℕ → Running → ℕ
share n r = one_if (is_fd n r.server.fd) + holders n r.sessions

-- A server before its `start` holds nothing.
abbrev pub Fresh : Phase → Running → Type 0
Fresh created r = (r.server.fd ≡ invalid_fd) × (r.sessions ≡ [])
Fresh _ r = Unit

module _ {World : Type 0} (os : Os World) where
  abbrev pub Total : (ℕ → ℕ) → World → Type 0
  Total base w = (n : ℕ) → one_if (os.is_open w n) ≡ base n

  abbrev pub beside : (ℕ → ℕ) → ℤ → ℕ → ℕ
  beside base fd n = base n + one_if (is_fd n fd)

  pub Total-Kept :
      (p : Phase) (base : ℕ → ℕ) (r : Running) (w : World)
      → Fresh p r
      → Total (λ n. base n + share n r) w
      → Kept os p (beside base) r w
  Total-Kept created base r w (fresh, none_yet) total = (
    fresh,
    none_yet,
    λ fd n. omega arith,
    λ n. omega (arith, total n, ap (λ fd. one_if (is_fd n fd)) fresh, ap (holders n) none_yet),
  )
  Total-Kept accepting base r w f total = λ n. omega (arith, total n)
  Total-Kept unset base r w f total = tt
  Total-Kept left base r w f total = λ n. omega (arith, total n)

  pub Kept-Total :
      (p : Phase) (base : ℕ → ℕ) (r : Running) (w : World)
      → p ≢ unset
      → Kept os p (beside base) r w
      → Fresh p r × Total (λ n. base n + share n r) w
  Kept-Total created base r w fine (fresh, none_yet, adds, acc) = (
    (fresh, none_yet),
    λ n. omega (arith, acc n, ap (λ fd. one_if (is_fd n fd)) fresh, ap (holders n) none_yet),
  )
  Kept-Total accepting base r w fine acc = (tt, λ n. omega (arith, acc n))
  Kept-Total unset base r w fine kept = absurd (fine refl)
  Kept-Total left base r w fine acc = (tt, λ n. omega (arith, acc n))

  pub unset-or : (p : Phase) → (p ≡ unset) ⊎ (p ≢ unset)
  unset-or created = inr (λ e. cc)
  unset-or accepting = inr (λ e. cc)
  unset-or unset = inl refl
  unset-or left = inr (λ e. cc)

  -- A thread that has returned stays so.
  pub unset-stays :
      (e : Event) (r : Running) (w : World)
      → r.phase ≡ unset
      → (advance os e (r, w)).0.phase ≡ unset
  unfolding advance
  unset-stays serves r w at = ap (λ p. (start_at os p r w).0.phase) at ∙ at
  unset-stays (turns i t) r w at = at

  module _ (laws : OsLaws os) where
    advance-Total :
        (base : ℕ → ℕ) (e : Event) (r : Running) (w : World)
        → Fresh r.phase r
        → Total (λ n. base n + share n r) w
        → ((advance os e (r, w)).0.phase ≡ unset)
          ⊎ (Fresh (advance os e (r, w)).0.phase (advance os e (r, w)).0
              × Total (λ n. base n + share n (advance os e (r, w)).0) (advance os e (r, w)).1)
    advance-Total base e r w f total = elim (unset-or (advance os e (r, w)).0.phase) [
      | inl failed ↦ inl failed
      | inr fine ↦ inr (
          Kept-Total (advance os e (r, w)).0.phase base (advance os e (r, w)).0
            (advance os e (r, w)).1 fine
            (advance-Kept os laws (beside base) e r w (Total-Kept r.phase base r w f total)))
    ]

    audit : Audit os (broker_threads os) (λ k m. k ≡ m)
    audit = record {
      share = share;
      Fit = λ r. Fresh r.phase r;
      Failed = λ r. r.phase ≡ unset;
      stays_failed = unset-stays;
      keeps = advance-Total;
    }

    new_program-Joint :
        (garbage garbage6 : ℕ) (w : World)
        → Joint os
            (broker_threads os)
            (λ k m. k ≡ m)
            audit
            (λ m. one_if (os.is_open w m))
            (broker_program garbage garbage6).tcp
            (broker_program garbage garbage6).tcp6
            w
    unfolding audit threads_tcp_bro_server_at threads_tcp6_bro_server_at new_engine_at
    new_program-Joint garbage garbage6 w = inr (inr ((refl, refl), (refl, refl), λ n. omega arith))

    Joint-Total :
        (base : ℕ → ℕ) (r r6 : Running) (w : World)
        → r.phase ≢ unset
        → r6.phase ≢ unset
        → Joint os (broker_threads os) (λ k m. k ≡ m) audit base r r6 w
        → Total (λ n. base n + share n r + share n r6) w
    unfolding audit
    Joint-Total base r r6 w fine fine6 (inl failed) = absurd (fine failed)
    Joint-Total base r r6 w fine fine6 (inr (inl failed)) = absurd (fine6 failed)
    Joint-Total base r r6 w fine fine6 (inr (inr (f, f6, total))) = total

    -- With a system that keeps `OsLaws`: run the program of the two broker servers, which share one
    -- process, with all its threads in any order. Unless the set-up of one of the two listening
    -- sockets has failed, the descriptors that are open are those that were open before, the
    -- listening sockets of the two servers and those that the contexts of their clients hold, each
    -- of them held once.
    pub program_run-Accounted :
        (garbage garbage6 : ℕ) (events : List (ProgramEvent Event)) (w w' : World)
        (p : Program Running)
        → program_run (broker_threads os) events (broker_program garbage garbage6, w) ≡ (p, w')
        → p.tcp.phase ≢ unset
        → p.tcp6.phase ≢ unset
        → (n : ℕ)
        → one_if (os.is_open w' n) ≡ one_if (os.is_open w n) + share n p.tcp + share n p.tcp6
    program_run-Accounted garbage garbage6 events w w' p ran fine fine6 n =
        let base : ℕ → ℕ = λ m. one_if (os.is_open w m) in
        let rel : ℕ → ℕ → Type 0 = λ k m. k ≡ m in
        Joint-Total base p.tcp p.tcp6 w' fine fine6
          (subst (λ c. Joint os (broker_threads os) rel audit base c.0.tcp c.0.tcp6 c.1) ran
            (run-Joint os (broker_threads os) rel audit base events
              (broker_program garbage garbage6) w (new_program-Joint garbage garbage6 w)))
          n
