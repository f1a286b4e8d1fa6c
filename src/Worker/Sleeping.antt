-- ===== src/Worker/Sleeping.antt =====
-- A thread that sleeps on its condition variable, and the two ways in which `doWork` hangs.
use net_utils.Base.{ℕ, ◌≡◌, ◌⊎◌, inl, inr, refl, true, false, List, [], ◌∷◌, ℤ, All, arith}
use net_utils.Context.{SocketContext}
use net_utils.Io.Run.{Run, returned, waiting}
use net_utils.Io.Send.{Answer}
use net_utils.Io.Recv.{Incoming}
use net_utils.Worker.{
  Pc, unborn, starting, sleeping, in_send, finished, MainPc, begin, recv_spawned, recv_assigned,
  Worker, new_worker, after_send, read_at, write_at, main_at, Turn, mains, reads, writes,
  wakes_writer, step, run,
}

-- Every turn but a wake-up of the sending thread with no notification.
abbrev pub Notified : Turn → Type 0
Notified wakes_writer = ⊥
Notified _ = Unit

-- `doWork` has started both threads.
abbrev Spawned : MainPc → Type 0
Spawned begin = ⊥
Spawned recv_spawned = ⊥
Spawned recv_assigned = ⊥
Spawned _ = Unit

-- Before that the sending thread is not born.
abbrev Born : Worker → Type 0
Born w = Spawned w.main ⊎ (w.writer ≡ unborn)

record Asleep (w : Worker) : Type 0 where
  spawned : Spawned w.main
  asleep : (w.writer ≡ sleeping) ⊎ (w.reader ≡ finished)

read_at-Asleep :
    (pc : Pc) (i : Incoming) (w : Worker) → w.reader ≡ pc → Asleep w → Asleep (read_at pc i w)
unfolding read_at
read_at-Asleep starting i w e s = ground arith
read_at-Asleep pc i w e s = ground arith

after_send-Asleep :
    (r : Run (List ℕ)) (w : Worker) (fd : ℤ) (response : List ℕ)
    → w.writer ≡ in_send fd response
    → Asleep w
    → Asleep (after_send r w)
after_send-Asleep (returned true wire) w fd response e s = ground arith
after_send-Asleep (returned false wire) w fd response e s = ground arith
after_send-Asleep (waiting wire) w fd response e s = s

write_at-Asleep :
    (pc : Pc) (answers : List Answer) (w : Worker)
    → w.writer ≡ pc
    → Asleep w
    → Asleep (write_at pc answers w)
unfolding write_at
write_at-Asleep (in_send fd response) answers w e s = after_send-Asleep _ w fd response e s
write_at-Asleep pc answers w e s = ground arith

main_at-Asleep : (pc : MainPc) (w : Worker) → w.main ≡ pc → Asleep w → Asleep (main_at pc w)
unfolding main_at
main_at-Asleep begin w e s = ground arith
main_at-Asleep pc w e s = ground arith

step-Asleep : (t : Turn) (w : Worker) → Notified t → Asleep w → Asleep (step t w)
unfolding step
step-Asleep mains w ok s = main_at-Asleep w.main w refl s
step-Asleep (reads i) w ok s = read_at-Asleep w.reader i w refl s
step-Asleep (writes answers) w ok s = write_at-Asleep w.writer answers w refl s
step-Asleep wakes_writer w ok s = absurd ok
step-Asleep t w ok s = ground arith

run-Asleep : (turns : List Turn) (w : Worker) → All Notified turns → Asleep w → Asleep (run turns w)
unfolding run
run-Asleep [] w ok s = s
run-Asleep (t ∷ turns) w ok s = run-Asleep turns (step t w) ok.1 (step-Asleep t w ok.0 s)

main_at-Born : (pc : MainPc) (w : Worker) → w.main ≡ pc → Born w → Born (main_at pc w)
unfolding main_at
main_at-Born begin w e b = ground arith
main_at-Born pc w e b = ground arith

after_send-Born :
    (r : Run (List ℕ)) (w : Worker) (fd : ℤ) (response : List ℕ)
    → w.writer ≡ in_send fd response
    → Born w
    → Born (after_send r w)
after_send-Born (returned true wire) w fd response e b = ground arith
after_send-Born (returned false wire) w fd response e b = ground arith
after_send-Born (waiting wire) w fd response e b = b

read_at-Born : (pc : Pc) (i : Incoming) (w : Worker) → Born w → Born (read_at pc i w)
unfolding read_at
read_at-Born starting i w b = ground arith
read_at-Born pc i w b = ground arith

write_at-Born :
    (pc : Pc) (answers : List Answer) (w : Worker)
    → w.writer ≡ pc
    → Born w
    → Born (write_at pc answers w)
unfolding write_at
write_at-Born (in_send fd response) answers w e b = after_send-Born _ w fd response e b
write_at-Born pc answers w e b = ground arith

step-Born : (t : Turn) (w : Worker) → Born w → Born (step t w)
unfolding step
step-Born mains w b = main_at-Born w.main w refl b
step-Born (reads i) w b = read_at-Born w.reader i w b
step-Born (writes answers) w b = write_at-Born w.writer answers w refl b
step-Born t w b = ground arith

run-Born : (turns : List Turn) (w : Worker) → Born w → Born (run turns w)
unfolding run
run-Born [] w b = b
run-Born (t ∷ turns) w b = run-Born turns (step t w) (step-Born t w b)

-- Once the sending thread sleeps, it sleeps until the reading thread has ended: no call of
-- `enableWriteEvent` wakes it, in any order of the threads (and with no wake-up that was not
-- notified).
pub sleeps_until_exit :
    (context : SocketContext) (before turns : List Turn)
    → (run before (new_worker context)).writer ≡ sleeping
    → All Notified turns
    → ((run turns (run before (new_worker context))).writer ≡ sleeping)
      ⊎ ((run turns (run before (new_worker context))).reader ≡ finished)
sleeps_until_exit context before turns e ok =
    (run-Asleep turns (run before (new_worker context)) ok (record {
      spawned =
          by_birth (run before (new_worker context)) e
            (run-Born before (new_worker context) (inr refl));
      asleep = inl e;
    })).asleep
  where
    by_birth : (w : Worker) → w.writer ≡ sleeping → Born w → Spawned w.main
    by_birth w e b = ground arith
