-- ===== src/Worker/Closing.antt =====
-- The descriptor of a client, closed by whichever of the two threads ends first.
use net_utils.Base.{
  ℕ, ◌+◌, ◌≡◌, ◌⊎◌, inl, refl, Bool, true, false, List, [], ◌∷◌, ◌++◌, ℤ, pos, negsuc, ◌==◌,
  if◌then◌else◌, arith,
}
use net_utils.Context.{SocketContext, ipv4, invalid_fd}
use net_utils.Io.Run.{Run, returned, waiting}
use net_utils.Io.Send.{Answer}
use net_utils.Io.Recv.{Incoming}
use net_utils.Worker.{
  Pc, unborn, in_send, closing, enabling, interrupting, notifying, finished, MainPc, begin,
  recv_spawned, recv_assigned, joining_send, returned_true, Lock, free, by_reader, by_writer,
  Worker, held_fd, new_worker, read_closing, write_closing, after_send, read_at, write_at, main_at,
  Turn, mains, reads, writes, wakes_reader, step, run,
}

-- How often a descriptor was closed.
abbrev pub is_fd : ℕ → ℤ → Bool
is_fd n (pos m) = m == n
is_fd n (negsuc k) = false

unfoldable pub closes_of : ℕ → List ℤ → ℕ
closes_of n [] = 0
closes_of n (fd ∷ fds) = (if is_fd n fd then 1 else 0) + closes_of n fds

pub closes_of-append :
    (n : ℕ) (fds : List ℤ) (fd : ℤ)
    → closes_of n (fds ++ fd ∷ []) ≡ closes_of n fds + (if is_fd n fd then 1 else 0)
unfolding closes_of
closes_of-append n [] fd = omega arith
closes_of-append n (x ∷ fds) fd = omega (arith, closes_of-append n fds fd)

-- A thread that has closed the descriptor, or that comes after one that has.
abbrev Left : Pc → ℤ → Type 0
Left enabling fd = fd ≡ invalid_fd
Left interrupting fd = fd ≡ invalid_fd
Left notifying fd = fd ≡ invalid_fd
Left finished fd = fd ≡ invalid_fd
Left _ fd = Unit

-- `doWork` has waited for the threads that it has passed.
abbrev pub Joined : MainPc → Pc → Pc → Type 0
Joined joining_send reader writer = reader ≡ finished
Joined returned_true reader writer = (reader ≡ finished) × (writer ≡ finished)
Joined _ reader writer = Unit

-- A thread that holds `mMutex` stands in its section.
abbrev pub Locked : Lock → Pc → Pc → Type 0
Locked free reader writer = Unit
Locked by_reader reader writer = reader ≡ closing
Locked by_writer reader writer = writer ≡ closing

-- A thread that `doWork` has not started.
abbrev pub Unstarted : MainPc → Pc → Pc → Type 0
Unstarted begin reader writer = (reader ≡ unborn) × (writer ≡ unborn)
Unstarted recv_spawned reader writer = writer ≡ unborn
Unstarted recv_assigned reader writer = writer ≡ unborn
Unstarted _ reader writer = Unit

abbrev pub OpenOrClosed : ℕ → Worker → Type 0
OpenOrClosed n w =
    ((held_fd w ≡ pos n) × (closes_of n w.closes ≡ 0))
    ⊎ ((held_fd w ≡ invalid_fd) × (closes_of n w.closes ≡ 1))

record Inv (n a p : ℕ) (w : Worker) : Type 0 where
  ipv4_context : w.client_addr ≡ ipv4 a p
  once : OpenOrClosed n w
  locked : Locked w.mutex w.reader w.writer
  reader_left : Left w.reader w.client_fd
  writer_left : Left w.writer w.client_fd
  unstarted : Unstarted w.main w.reader w.writer
  joined : Joined w.main w.reader w.writer

module _ {n a p : ℕ} where
  read_closing-Inv :
      (l : Lock) (w : Worker)
      → w.reader ≡ closing
      → w.mutex ≡ l
      → Inv n a p w
      → Inv n a p (read_closing l w)
  read_closing-Inv l w e at inv = ground (arith, closes_of-append n w.closes w.client_fd)

  write_closing-Inv :
      (l : Lock) (w : Worker)
      → w.writer ≡ closing
      → w.mutex ≡ l
      → Inv n a p w
      → Inv n a p (write_closing l w)
  write_closing-Inv l w e at inv = ground (arith, closes_of-append n w.closes w.client_fd)

  read_at-Inv :
      (pc : Pc) (i : Incoming) (w : Worker)
      → w.reader ≡ pc
      → Inv n a p w
      → Inv n a p (read_at pc i w)
  unfolding read_at
  read_at-Inv closing i w e inv = read_closing-Inv w.mutex w e refl inv
  read_at-Inv pc i w e inv = ground arith

  after_send-Inv :
      (r : Run (List ℕ)) (w : Worker)
      → (fd : ℤ) (response : List ℕ) → w.writer ≡ in_send fd response
      → Inv n a p w
      → Inv n a p (after_send r w)
  after_send-Inv (returned true wire) w fd response e inv = ground arith
  after_send-Inv (returned false wire) w fd response e inv = ground arith
  after_send-Inv (waiting wire) w fd response e inv = inv

  write_at-Inv :
      (pc : Pc) (answers : List Answer) (w : Worker)
      → w.writer ≡ pc
      → Inv n a p w
      → Inv n a p (write_at pc answers w)
  unfolding write_at
  write_at-Inv closing answers w e inv = write_closing-Inv w.mutex w e refl inv
  write_at-Inv (in_send fd response) answers w e inv = after_send-Inv _ w fd response e inv
  write_at-Inv pc answers w e inv = ground arith

  main_at-Inv : (pc : MainPc) (w : Worker) → w.main ≡ pc → Inv n a p w → Inv n a p (main_at pc w)
  unfolding main_at
  main_at-Inv begin w e inv = ground arith
  main_at-Inv pc w e inv = ground arith

  step-Inv : (t : Turn) (w : Worker) → Inv n a p w → Inv n a p (step t w)
  unfolding step
  step-Inv mains w inv = main_at-Inv w.main w refl inv
  step-Inv (reads i) w inv = read_at-Inv w.reader i w refl inv
  step-Inv (writes answers) w inv = write_at-Inv w.writer answers w refl inv
  step-Inv wakes_reader w inv = ground arith
  step-Inv t w inv = ground arith

  run-Inv : (turns : List Turn) (w : Worker) → Inv n a p w → Inv n a p (run turns w)
  unfolding run
  run-Inv [] w inv = inv
  run-Inv (t ∷ turns) w inv = run-Inv turns (step t w) (step-Inv t w inv)

new_worker-Inv :
    (context : SocketContext) (n a p : ℕ)
    → context.client_fd ≡ pos n
    → context.client_addr ≡ ipv4 a p
    → Inv n a p (new_worker context)
unfolding closes_of
new_worker-Inv context n a p fd addr = record {
  ipv4_context = addr;
  once = inl (fd, refl);
  locked = tt;
  reader_left = tt;
  writer_left = tt;
  unstarted = (refl, refl);
  joined = tt;
}

-- Whatever order the threads run in, the descriptor of an IPv4 client is either held by the
-- context, or was closed exactly once, and is cleared or about to be.
pub run-OpenOrClosed :
    (context : SocketContext) (n a p : ℕ) (turns : List Turn)
    → context.client_fd ≡ pos n
    → context.client_addr ≡ ipv4 a p
    → OpenOrClosed n (run turns (new_worker context))
run-OpenOrClosed context n a p turns fd addr =
    (run-Inv turns (new_worker context) (new_worker-Inv context n a p fd addr)).once

-- When `doWork` for an IPv4 client returns, both threads have ended, the context holds no descriptor,
-- and the client's descriptor was closed exactly once.
pub returned-closed :
    (context : SocketContext) (n a p : ℕ) (turns : List Turn)
    → context.client_fd ≡ pos n
    → context.client_addr ≡ ipv4 a p
    → (run turns (new_worker context)).main ≡ returned_true
    → ((run turns (new_worker context)).reader ≡ finished)
      × ((run turns (new_worker context)).writer ≡ finished)
      × ((run turns (new_worker context)).client_fd ≡ invalid_fd)
      × (closes_of n (run turns (new_worker context)).closes ≡ 1)
returned-closed context n a p turns fd addr done =
    by_inv (run turns (new_worker context)) done
      (run-Inv turns (new_worker context) (new_worker-Inv context n a p fd addr))
  where
    by_inv :
        (w : Worker)
        → w.main ≡ returned_true
        → Inv n a p w
        → (w.reader ≡ finished)
          × (w.writer ≡ finished)
          × (w.client_fd ≡ invalid_fd)
          × (closes_of n w.closes ≡ 1)
    by_inv w done inv = ground arith
