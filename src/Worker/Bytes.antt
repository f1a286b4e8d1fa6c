-- ===== src/Worker/Bytes.antt =====
-- The bytes that the reading thread hands on.
use net_utils.Base.{ℕ, ◌≡◌, refl, true, false, List, [], ◌∷◌, ◌++◌, append_assoc, append-nil, arith}
use net_utils.Context.{SocketContext}
use net_utils.Io.Run.{Run, returned, waiting}
use net_utils.Io.Send.{Answer}
use net_utils.Io.Recv.{Incoming}
use net_utils.Worker.{
  Pc, unborn, in_recv, appending, in_send, MainPc, begin, Worker, new_worker, after_send, chunk_of,
  read_at, write_at, main_at, Turn, mains, reads, writes, step, run,
}

-- What the reading thread has received and not yet appended.
abbrev pub pending : Pc → List ℕ
pending (appending chunk) = chunk
pending _ = []

-- The reading thread starts when `doWork` does.
abbrev Begun : MainPc → Pc → Type 0
Begun begin reader = reader ≡ unborn
Begun _ reader = Unit

record Handed (before : List ℕ) (w : Worker) : Type 0 where
  handed : w.request ++ pending w.reader ≡ before ++ w.received
  begun : Begun w.main w.reader

module _ {before : List ℕ} where
  read_at-Handed :
      (pc : Pc) (i : Incoming) (w : Worker)
      → w.reader ≡ pc
      → Handed before w
      → Handed before (read_at pc i w)
  unfolding read_at
  read_at-Handed (in_recv fd) i w e h =
      ground (arith, append-nil w.request, append_assoc before w.received (chunk_of i))
  read_at-Handed (appending chunk) i w e h = ground (arith, append-nil (w.request ++ chunk))
  read_at-Handed pc i w e h = ground arith

  after_send-Handed :
      (r : Run (List ℕ)) (w : Worker) → Handed before w → Handed before (after_send r w)
  after_send-Handed (returned true wire) w h = ground arith
  after_send-Handed (returned false wire) w h = ground arith
  after_send-Handed (waiting wire) w h = h

  write_at-Handed :
      (pc : Pc) (answers : List Answer) (w : Worker)
      → Handed before w
      → Handed before (write_at pc answers w)
  unfolding write_at
  write_at-Handed (in_send fd response) answers w h = after_send-Handed _ w h
  write_at-Handed pc answers w h = ground arith

  main_at-Handed :
      (pc : MainPc) (w : Worker) → w.main ≡ pc → Handed before w → Handed before (main_at pc w)
  unfolding main_at
  main_at-Handed begin w e h = ground arith
  main_at-Handed pc w e h = ground arith

  step-Handed : (t : Turn) (w : Worker) → Handed before w → Handed before (step t w)
  unfolding step
  step-Handed mains w h = main_at-Handed w.main w refl h
  step-Handed (reads i) w h = read_at-Handed w.reader i w refl h
  step-Handed (writes answers) w h = write_at-Handed w.writer answers w h
  step-Handed t w h = ground arith

  run-Handed : (turns : List Turn) (w : Worker) → Handed before w → Handed before (run turns w)
  unfolding run
  run-Handed [] w h = h
  run-Handed (t ∷ turns) w h = run-Handed turns (step t w) (step-Handed t w h)

new_worker-Handed : (context : SocketContext) → Handed context.request (new_worker context)
new_worker-Handed context = record { handed = refl; begun = refl }

-- Whatever order the threads run in, the request of the context grows by the bytes that `recv` gave,
-- in their order and without loss; only the last piece may still be in the thread's hands.
pub run-request :
    (context : SocketContext) (turns : List Turn)
    → (run turns (new_worker context)).request ++ pending (run turns (new_worker context)).reader
      ≡ context.request ++ (run turns (new_worker context)).received
run-request context turns =
    (run-Handed turns (new_worker context) (new_worker-Handed context)).handed
