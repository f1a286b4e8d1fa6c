-- ===== src/Worker/Settled.antt =====
-- The section under `mMutex` of ThreadsTcpBroWorker.cpp is over when `doWork` is back.
use net_utils.Base.{ℕ, ◌≡◌, refl, true, false, List, ℤ, arith}
use net_utils.Context.{SocketContext}
use net_utils.Io.Run.{Run, returned, waiting}
use net_utils.Io.Send.{Answer}
use net_utils.Io.Recv.{Incoming}
use net_utils.Worker.{
  Pc, in_send, closing, MainPc, begin, returned_true, Lock, Worker, held_fd, read_closing,
  write_closing, after_send, read_at, write_at, main_at, new_worker, Turn, mains, reads, writes,
  wakes_reader, step,
}
use net_utils.Worker.Closing.{Locked, Unstarted, Joined}

pub record Settled (w : Worker) : Type 0 where
  locked : Locked w.mutex w.reader w.writer
  unstarted : Unstarted w.main w.reader w.writer
  joined : Joined w.main w.reader w.writer

read_closing-Settled :
    (l : Lock) (w : Worker)
    → w.reader ≡ closing
    → w.mutex ≡ l
    → Settled w
    → Settled (read_closing l w)
read_closing-Settled l w e at s = ground arith

write_closing-Settled :
    (l : Lock) (w : Worker)
    → w.writer ≡ closing
    → w.mutex ≡ l
    → Settled w
    → Settled (write_closing l w)
write_closing-Settled l w e at s = ground arith

read_at-Settled :
    (pc : Pc) (i : Incoming) (w : Worker) → w.reader ≡ pc → Settled w → Settled (read_at pc i w)
unfolding read_at
read_at-Settled closing i w e s = read_closing-Settled w.mutex w e refl s
read_at-Settled pc i w e s = ground arith

after_send-Settled :
    (r : Run (List ℕ)) (w : Worker)
    → (fd : ℤ) (response : List ℕ) → w.writer ≡ in_send fd response
    → Settled w
    → Settled (after_send r w)
after_send-Settled (returned true wire) w fd response e s = ground arith
after_send-Settled (returned false wire) w fd response e s = ground arith
after_send-Settled (waiting wire) w fd response e s = s

write_at-Settled :
    (pc : Pc) (answers : List Answer) (w : Worker)
    → w.writer ≡ pc
    → Settled w
    → Settled (write_at pc answers w)
unfolding write_at
write_at-Settled closing answers w e s = write_closing-Settled w.mutex w e refl s
write_at-Settled (in_send fd response) answers w e s = after_send-Settled _ w fd response e s
write_at-Settled pc answers w e s = ground arith

main_at-Settled : (pc : MainPc) (w : Worker) → w.main ≡ pc → Settled w → Settled (main_at pc w)
unfolding main_at
main_at-Settled begin w e s = ground arith
main_at-Settled pc w e s = ground arith

pub step-Settled : (t : Turn) (w : Worker) → Settled w → Settled (step t w)
unfolding step
step-Settled mains w s = main_at-Settled w.main w refl s
step-Settled (reads i) w s = read_at-Settled w.reader i w refl s
step-Settled (writes answers) w s = write_at-Settled w.writer answers w refl s
step-Settled wakes_reader w s = ground arith
step-Settled t w s = ground arith

pub new_worker-Settled : (context : SocketContext) → Settled (new_worker context)
new_worker-Settled context = record { locked = tt; unstarted = (refl, refl); joined = tt }

-- The context of a worker whose `doWork` is back holds what it names.
pub Settled-held_fd : (w : Worker) → Settled w → w.main ≡ returned_true → held_fd w ≡ w.client_fd
Settled-held_fd w s done = ground arith
