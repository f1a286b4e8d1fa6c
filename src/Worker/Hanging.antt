-- ===== src/Worker/Hanging.antt =====
-- Two orders of the threads of ThreadsTcpBroWorker.cpp in which `doWork` waits for ever.
use net_utils.Base.{◌≡◌, ◌≢◌, ◌⊎◌, inl, inr, refl, List, [], ◌∷◌, All, arith}
use net_utils.Io.Send.{send_loop, send_bytes}
use net_utils.Io.Recv.{got}
use net_utils.Os.{Accepted, Os}
use net_utils.Server.{threads_tcp, context_for}
use net_utils.Worker.{
  sleeping, finished, send_spawned, joining_recv, joining_send, returned_true, Worker, new_worker,
  read_at, write_at, main_at, Turn, mains, reads, writes, wakes_writer, step, run,
}
use net_utils.Worker.Sleeping.{Notified}

-- The reading thread has ended, the sending thread sleeps, and `doWork` waits for one of them.
pub record Stuck (w : Worker) : Type 0 where
  pub waits : (w.main ≡ send_spawned) ⊎ (w.main ≡ joining_recv) ⊎ (w.main ≡ joining_send)
  pub ended : w.reader ≡ finished
  pub asleep : w.writer ≡ sleeping

step-Stuck : (t : Turn) (w : Worker) → Notified t → Stuck w → Stuck (step t w)
unfolding step read_at write_at main_at
step-Stuck mains w ok s = ground arith
step-Stuck wakes_writer w ok s = absurd ok
step-Stuck t w ok s = ground arith

run-Stuck : (turns : List Turn) (w : Worker) → All Notified turns → Stuck w → Stuck (run turns w)
unfolding run
run-Stuck [] w ok s = s
run-Stuck (t ∷ turns) w ok s = run-Stuck turns (step t w) ok.1 (step-Stuck t w ok.0 s)

Stuck-main : (w : Worker) → Stuck w → w.main ≢ returned_true
Stuck-main w s e = ground arith

-- The client closes the connection. The reading thread sets the flag of the sending thread, which
-- uses it up before it is interrupted, and sleeps again.
abbrev pub exit_race : List Turn
exit_race =
    mains
    ∷ mains
    ∷ mains
    ∷ mains
    ∷ reads (got [])
    ∷ reads (got [])
    ∷ reads (got [])
    ∷ reads (got [])
    ∷ reads (got [])
    ∷ reads (got [])
    ∷ reads (got [])
    ∷ reads (got [])
    ∷ writes []
    ∷ writes []
    ∷ writes []
    ∷ writes []
    ∷ writes []
    ∷ writes []
    ∷ writes []
    ∷ writes []
    ∷ reads (got [])
    ∷ reads (got [])
    ∷ writes []
    ∷ []

-- The reading thread ends before the sending thread stands in its member, so that the interruption
-- reaches no thread.
abbrev pub start_race : List Turn
start_race =
    mains
    ∷ mains
    ∷ reads (got [])
    ∷ reads (got [])
    ∷ reads (got [])
    ∷ reads (got [])
    ∷ reads (got [])
    ∷ reads (got [])
    ∷ reads (got [])
    ∷ reads (got [])
    ∷ reads (got [])
    ∷ reads (got [])
    ∷ mains
    ∷ mains
    ∷ writes []
    ∷ writes []
    ∷ writes []
    ∷ writes []
    ∷ writes []
    ∷ writes []
    ∷ writes []
    ∷ writes []
    ∷ []

module _ {World : Type 0} (os : Os World) (client : Accepted) where
  exit_race-Stuck : Stuck (run exit_race (new_worker (context_for os threads_tcp client)))
  unfolding run step read_at write_at main_at send_bytes send_loop
  exit_race-Stuck = record { waits = inr (inl refl); ended = refl; asleep = refl }

  start_race-Stuck : Stuck (run start_race (new_worker (context_for os threads_tcp client)))
  unfolding run step read_at write_at main_at send_bytes send_loop
  start_race-Stuck = record { waits = inr (inl refl); ended = refl; asleep = refl }

-- The client of `ThreadsTcpBroServer` closes the connection at once, and the reading thread sets the
-- flag that the sending thread uses up before it is interrupted: `doWork` never returns after that,
-- whatever the threads do, unless a thread wakes with no notification.
pub exit_race-hangs :
    {World : Type 0} (os : Os World) (client : Accepted) (turns : List Turn)
    → All Notified turns
    → (run turns (run exit_race (new_worker (context_for os threads_tcp client)))).main
      ≢ returned_true
exit_race-hangs os client turns ok = Stuck-main _ (run-Stuck turns _ ok (exit_race-Stuck os client))

-- The reading thread of a client of `ThreadsTcpBroServer` ends before the sending thread stands in
-- its member, so that the interruption reaches no thread: `doWork` never returns after that,
-- whatever the threads do, unless a thread wakes with no notification.
start_race-hangs :
    {World : Type 0} (os : Os World) (client : Accepted) (turns : List Turn)
    → All Notified turns
    → (run turns (run start_race (new_worker (context_for os threads_tcp client)))).main
      ≢ returned_true
start_race-hangs os client turns ok =
    Stuck-main _ (run-Stuck turns _ ok (start_race-Stuck os client))
