-- ===== src/Program/Lifetimes/Ended.antt =====
-- What the program of ThreadsEchoEngine.cpp holds while its servers live, and when `main` returns.
use net_utils.Base.{ℕ, ◌+◌, ◌≡◌, inl, inr, refl, ap, subst, Bool, true, false, List, some, arith}
use net_utils.Os.{Os, OsLaws}
use net_utils.Engine.{new_engine_at}
use net_utils.Server.{threads_tcp_bro_server_at, threads_tcp6_bro_server_at}
use net_utils.Worker.Closing.{is_fd}
use net_utils.System.Threads.{Phase}
use net_utils.System.Accounts.{one_if, holders}
use net_utils.System.Lifetimes.{Happening}
use net_utils.System.SetUp.{local_fd}
use net_utils.System.Starting.{Starting}
use net_utils.System.Starting.Ledger.{starting_share, starting_step-Total}
use net_utils.Program.Threads.{Program, returned_zero, ProgramEvent, program_run}
use net_utils.Program.Audit.{Audit, Joint, run-Joint}
use net_utils.Program.Joining.{returned_zero-IsBack}
use net_utils.Program.Lifetimes.{
  thread_returned, Fit, starting_step-Fit, engine_threads, engine_program,
}

module _ {World : Type 0} (os : Os World) (laws : OsLaws os) where
  -- No step of a server spoils the account.
  engine_audit : Audit os (engine_threads os) (λ k m. k ≡ m)
  engine_audit = record {
    share = starting_share;
    Fit = Fit os;
    Failed = λ st. ⊥;
    stays_failed = λ e st w failed. failed;
    keeps = λ base e st w fit total. inr (
      starting_step-Fit os e st w fit,
      starting_step-Total os laws base e st w fit.0 fit.2 total,
    );
  }

  engine_program-Joint :
      (garbage garbage6 : ℕ) (w : World)
      → Joint os
          (engine_threads os)
          (λ k m. k ≡ m)
          engine_audit
          (λ m. one_if (os.is_open w m))
          (engine_program garbage garbage6).tcp
          (engine_program garbage garbage6).tcp6
          w
  unfolding engine_audit threads_tcp_bro_server_at threads_tcp6_bro_server_at new_engine_at
  engine_program-Joint garbage garbage6 w =
      inr
        (inr ((λ at. tt, λ lost. cc, (tt, tt)), (λ at. tt, λ lost. cc, (tt, tt)), λ n. omega arith))

  Joint-Fit :
      (base : ℕ → ℕ) (st st6 : Starting) (w : World)
      → Joint os (engine_threads os) (λ k m. k ≡ m) engine_audit base st st6 w
      → Fit os st
        × Fit os st6
        × ((n : ℕ) → one_if (os.is_open w n) ≡ base n + starting_share n st + starting_share n st6)
  unfolding engine_audit
  Joint-Fit base st st6 w (inl failed) = absurd failed
  Joint-Fit base st st6 w (inr (inl failed)) = absurd failed
  Joint-Fit base st st6 w (inr (inr fit)) = fit

  ran-Fit :
      (garbage garbage6 : ℕ) (events : List (ProgramEvent Happening)) (w w' : World)
      (p : Program Starting)
      → program_run (engine_threads os) events (engine_program garbage garbage6, w) ≡ (p, w')
      → Fit os p.tcp
        × Fit os p.tcp6
        × ((n : ℕ)
            → one_if (os.is_open w' n)
              ≡ one_if (os.is_open w n) + starting_share n p.tcp + starting_share n p.tcp6)
  ran-Fit garbage garbage6 events w w' p ran =
      let base : ℕ → ℕ = λ m. one_if (os.is_open w m) in
      let rel : ℕ → ℕ → Type 0 = λ k m. k ≡ m in
      Joint-Fit base p.tcp p.tcp6 w' (
        subst (λ c. Joint os (engine_threads os) rel engine_audit base c.0.tcp c.0.tcp6 c.1) ran
          (run-Joint os (engine_threads os) rel engine_audit base events
            (engine_program garbage garbage6) w (engine_program-Joint garbage garbage6 w)))

  -- With a system that keeps `OsLaws`: run the program of the two broker servers with all its threads
  -- in any order, where every system call of the set-up of a socket is a step of its own, each server
  -- goes when its thread's function ends, and each context with the last of its server and its worker's
  -- thread. At any time, whatever has failed, the descriptors that are open are those that were open
  -- before and those that the two servers hold: in `mFd`, as the socket of a set-up that is under way
  -- or has broken off (which nothing closes), and in the contexts that a queue or a thread keeps; and
  -- none is held twice. A context whose descriptor a thread has closed and not cleared yet holds none.
  pub program_run-Accounted :
      (garbage garbage6 : ℕ) (events : List (ProgramEvent Happening)) (w w' : World)
      (p : Program Starting)
      → program_run (engine_threads os) events (engine_program garbage garbage6, w) ≡ (p, w')
      → (n : ℕ)
      → one_if (os.is_open w' n)
        ≡ one_if (os.is_open w n) + starting_share n p.tcp + starting_share n p.tcp6
  program_run-Accounted garbage garbage6 events w w' p ran =
      (ran-Fit garbage garbage6 events w w' p ran).2

  returned-lost : (a : Bool) (at : Phase) (b : Bool) → thread_returned a at ≡ some b → a ≡ false
  returned-lost true at b e = cc
  returned-lost false at b e = refl

  -- In the same program: when `main` has returned 0, the descriptors that are open are those that
  -- were open before, the listening socket of each server or what its set-up has left open, and
  -- those that the contexts hold whose threads have not ended: the queues have kept none. A context
  -- whose descriptor a thread has closed and not cleared yet holds none.
  pub returned_zero-Accounted :
      (garbage garbage6 : ℕ) (events : List (ProgramEvent Happening)) (w w' : World)
      (p : Program Starting)
      → program_run (engine_threads os) events (engine_program garbage garbage6, w) ≡ (p, w')
      → p.main ≡ returned_zero
      → (n : ℕ)
      → one_if (os.is_open w' n)
        ≡ one_if (os.is_open w n)
          + one_if (is_fd n p.tcp.process.running.server.fd)
          + one_if (is_fd n (local_fd p.tcp.set_up))
          + holders n p.tcp.process.running.sessions
          + one_if (is_fd n p.tcp6.process.running.server.fd)
          + one_if (is_fd n (local_fd p.tcp6.set_up))
          + holders n p.tcp6.process.running.sessions
  returned_zero-Accounted garbage garbage6 events w w' p ran ended n =
      let start = engine_program garbage garbage6 in
      let (fit, fit6, total) = ran-Fit garbage garbage6 events w w' p ran in
      let ((b, back), (b6, back6)) =
        returned_zero-IsBack (engine_threads os) start.tcp start.tcp6 events w w' p ran ended in
      let lost = returned-lost p.tcp.process.has_server p.tcp.process.running.phase b back in
      let lost6 = returned-lost p.tcp6.process.has_server p.tcp6.process.running.phase b6 back6 in
      omega (arith, total n, ap (holders n) (fit.1 lost), ap (holders n) (fit6.1 lost6))
