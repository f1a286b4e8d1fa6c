-- ===== src/System/Starting/Ledger.antt =====
-- The open descriptors while a broker server sets up its socket call by call, serves and ends.
use net_utils.Base.{
  ℕ, ◌+◌, ◌≡◌, inl, inr, refl, sym, subst, Bool, true, false, Bool-cases, ◌&&◌, if◌then◌else◌, List,
  ℤ, pos, negsuc, is_neg, arith,
}
use net_utils.Context.{is_invalid}
use net_utils.Os.{Os, OsLaws}
use net_utils.Server.{accept_client}
use net_utils.Server.Accepting.{admit-fd, accept_client-refused, accept_client-admits}
use net_utils.Worker.Closing.{is_fd}
use net_utils.System.Threads.{
  Phase, created, accepting, unset, left, Session, serves, turns, admitted, advance,
}
use net_utils.System.Accounts.{one_if, holders, Accounted, nth_step-Accounted}
use net_utils.System.Ledger.{refused-Accounted, admits-Accounted}
use net_utils.System.Lifetimes.{
  Happening, of_thread, thread_ends, drops_server, is_back, pick, release, thread_end, drop_server,
  happen,
}
use net_utils.System.Lifetimes.Picks.{Picks, pick-Picks}
use net_utils.System.Lifetimes.Ledger.{release-Accounted, drop_server-Accounted}
use net_utils.System.Lifetimes.Neat.{Neat}
use net_utils.System.SetUp.{
  SetUp, calling_socket, setting_reuse, setting_v6only, binding, listening, made, broken_off,
  local_fd, set_up_step,
}
use net_utils.System.SetUp.Descriptors.{UnderWay, Grew, set_up_step-Grew}
use net_utils.System.Starting.{Starting, set_up_turn, ran, start_step, of_process, starting_step}

-- How often a server and its threads hold descriptor n: in `mFd`, in `svr_sock` of a set-up that is
-- under way or has broken off, and in a context that the queue or a thread keeps.
abbrev pub starting_share : ℕ → Starting → ℕ
starting_share n st =
    one_if (is_fd n st.process.running.server.fd)
    + one_if (is_fd n (local_fd st.set_up))
    + holders n st.process.queued
    + holders n st.process.running.sessions

is_invalid-one_if : (fd : ℤ) (n : ℕ) → is_invalid fd ≡ true → one_if (is_fd n fd) ≡ 0
is_invalid-one_if (pos m) n e = cc
is_invalid-one_if (negsuc k) n e = refl

module _ {World : Type 0} (os : Os World) where
  abbrev pub Total : (ℕ → ℕ) → Starting × World → Type 0
  Total base c = (n : ℕ) → one_if (os.is_open c.1 n) ≡ base n + starting_share n c.0

  module _ (laws : OsLaws os) where
    set_up_turn-Total :
        (base : ℕ → ℕ) (st : Starting) (w : World) (c : SetUp × World)
        → is_invalid st.process.running.server.fd ≡ true
        → Grew os st.set_up w c
        → Total base (st, w)
        → Total base (set_up_turn st c)
    set_up_turn-Total base st w (pc, w') fresh grew total = by_pc pc grew
      where
        by_pc : (pc : SetUp) → Grew os st.set_up w (pc, w') → Total base (set_up_turn st (pc, w'))
        by_pc (made fd) g =
            λ n. omega (arith, g n, total n, is_invalid-one_if st.process.running.server.fd n fresh)
        by_pc calling_socket g = λ n. omega (arith, g n, total n)
        by_pc (setting_reuse fd) g = λ n. omega (arith, g n, total n)
        by_pc (setting_v6only fd) g = λ n. omega (arith, g n, total n)
        by_pc (binding fd addr) g = λ n. omega (arith, g n, total n)
        by_pc (listening fd) g = λ n. omega (arith, g n, total n)
        by_pc (broken_off fd) g = λ n. omega (arith, g n, total n)

    -- What is held beside the contexts that the threads keep.
    abbrev beside_threads : (ℕ → ℕ) → Starting → ℕ → ℕ
    beside_threads base st n =
        base n
        + one_if (is_fd n st.process.running.server.fd)
        + one_if (is_fd n (local_fd st.set_up))
        + holders n st.process.queued

    admitted-Total :
        (base : ℕ → ℕ) (st : Starting) (w : World)
        → Total base (st, w)
        → Total base (
            ran os st
              (admitted os st.process.running (accept_client os st.process.running.server w)))
    admitted-Total base st w total =
        let r = st.process.running in
        let others = beside_threads base st in
        let acc : Accounted os others r.sessions w = λ n. omega (arith, total n) in
        elim (Bool-cases (is_neg (os.accept r.server.fd w).0.fd)) [
          | inl bad ↦ rw (accept_client-refused os r.server w bad) λ n.
              omega (arith, refused-Accounted os laws others r.sessions r.server.fd w bad acc n)
          | inr ok ↦
              rw
                (
                  accept_client-admits os r.server w ok,
                  admit-fd os (os.accept r.server.fd w).0 r.server,
                )
                λ n. omega (arith, admits-Accounted os laws others r.sessions r.server w acc n)
        ]

    start_step-Total :
        (at : Phase) (base : ℕ → ℕ) (st : Starting) (w : World)
        → (at ≡ created → UnderWay st.set_up)
        → Total base (st, w)
        → Total base (start_step os at st w)
    start_step-Total created base st w under total =
        elim (Bool-cases (is_invalid st.process.running.server.fd)) [
          | inl e ↦ rw e (
              set_up_turn-Total base st w
                (set_up_step os st.process.running.server.engine st.set_up w) e
                (set_up_step-Grew os laws st.process.running.server.engine st.set_up w (under refl))
                total)
          | inr e ↦ rw e total
        ]
    start_step-Total accepting base st w under total = admitted-Total base st w total
    start_step-Total unset base st w under total = total
    start_step-Total left base st w under total = total

    ends-Total :
        (base : ℕ → ℕ) (i : ℕ) (st : Starting) (w : World)
        → Neat st.process
        → Total base (st, w)
        → Total base
            (of_process os st (thread_end os (pick i st.process.running.sessions) st.process w))
    ends-Total base i st w neat total = elim (pick-Picks i st.process.running.sessions) [
      | inl e ↦ rw e total
      | inr (x, rest, e, picks) ↦
          subst (λ c. Total base (of_process os st (thread_end os c st.process w))) (sym e)
            (by_server st.process.has_server x rest picks)
    ]
      where
        o : ℕ → ℕ
        o n =
            base n
            + one_if (is_fd n st.process.running.server.fd)
            + one_if (is_fd n (local_fd st.set_up))

        by_server :
            (b : Bool) (x : Session) (rest : List Session)
            → Picks x rest st.process.running.sessions
            → Total base (of_process os st (release os b x rest st.process w))
        by_server true x rest picks = λ n. omega (
          arith,
          release-Accounted os laws true o st.process w x rest picks neat
              (λ m. omega (arith, total m)) n,
        )
        by_server false x rest picks = λ n. omega (
          arith,
          release-Accounted os laws false o st.process w x rest picks neat
              (λ m. omega (arith, total m)) n,
        )

    drops-Total :
        (base : ℕ → ℕ) (b : Bool) (st : Starting) (w : World)
        → Neat st.process
        → Total base (st, w)
        → Total base (of_process os st (if b then drop_server os st.process w else (st.process, w)))
    drops-Total base true st w neat total = λ n. omega (
      arith,
      drop_server-Accounted os laws
          (λ m.
            base m
            + one_if (is_fd m st.process.running.server.fd)
            + one_if (is_fd m (local_fd st.set_up)))
          st.process w neat (λ m. omega (arith, total m)) n,
    )
    drops-Total base false st w neat total = total

    pub starting_step-Total :
        (base : ℕ → ℕ) (e : Happening) (st : Starting) (w : World)
        → (st.process.running.phase ≡ created → UnderWay st.set_up)
        → Neat st.process
        → Total base (st, w)
        → Total base (starting_step os e (st, w))
    unfolding starting_step happen advance
    starting_step-Total base (of_thread serves) st w under neat total =
        start_step-Total st.process.running.phase base st w under total
    starting_step-Total base (of_thread (turns i t)) st w under neat total = λ n. omega (
      arith,
      nth_step-Accounted os laws (beside_threads base st) i t st.process.running.sessions w
          (λ m. omega (arith, total m)) n,
    )
    starting_step-Total base (thread_ends i) st w under neat total =
        ends-Total base i st w neat total
    starting_step-Total base drops_server st w under neat total =
        drops-Total base (st.process.has_server && is_back st.process.running.phase) st w neat total
