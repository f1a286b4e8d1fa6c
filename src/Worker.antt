-- ===== src/Worker.antt =====
-- src/NetUtils/services/tcp/multi_threads/ThreadsTcpBroWorker.{h,cpp}: the two threads of one client
-- and the thread in `doWork`, interleaved in any order. A section under a mutex is one step, but for
-- the section under `mMutex`: no other place locks that mutex, so that `close` and the assignment after
-- it are two steps. A whole `send_bytes` is one step. The condition variables are those of the standard library: a thread that
-- sleeps on one is woken by a notification or by itself, and not by `boost::thread::interrupt`.
pub mod Closing
pub mod Bytes
pub mod Foreign
pub mod Sleeping
pub mod Hanging
pub mod Ending
pub mod Responses
pub mod Own
pub mod Settled
mod Tests
use net_utils.Base.{ℕ, Bool, true, false, ◌||◌, List, [], ◌∷◌, ◌++◌, ℤ, is_neg, if◌then◌else◌}
use net_utils.Context.{SocketContext, ClientAddr, plain, ipv4, ipv6, invalid_fd}
use net_utils.Io.Run.{Run, returned, waiting, try_again}
use net_utils.Io.Send.{Answer, send_bytes}
use net_utils.Io.Recv.{Incoming, got, failed, ret, errno_after, is_zero}

-- Where a thread of the worker stands. `handleReadEvent` and `handleWriteEvent` share the loop head
-- and the four parts of `ON_SCOPE_EXIT`; a thread that is `closing` is in the section under `mMutex`
-- when it holds the mutex, and before it otherwise.
pub data Pc : Type 0 where
  unborn starting : Pc
  top : Pc  -- at the interruption point
  checking : Pc  -- before the lock and the test of the enabling flag
  sleeping : Pc  -- on the condition variable
  calling_recv : Pc
  in_recv : (fd : ℤ) → Pc
  appending : (chunk : List ℕ) → Pc
  copying : Pc
  calling_send : (response : List ℕ) → Pc
  in_send : (fd : ℤ) (response : List ℕ) → Pc
  closing enabling interrupting notifying : Pc
  finished : Pc

-- Where `doWork` stands: a thread runs before it is assigned to its member.
pub data MainPc : Type 0 where
  begin recv_spawned recv_assigned send_spawned joining_recv joining_send returned_true : MainPc

-- Which thread holds `mMutex` of the context: it has closed the descriptor, and not cleared it yet.
pub data Lock : Type 0 where
  free by_reader by_writer : Lock

pub record Worker : Type 0 where
  pub client_fd : ℤ
  pub client_addr : ClientAddr
  pub request : List ℕ
  pub response : List ℕ
  pub mutex : Lock
  pub is_read_enabled : Bool
  pub is_write_enabled : Bool
  -- Does `mRecvThread` (`mSendThread`) stand for a thread, and is it to be interrupted?
  pub recv_thread : Bool
  pub send_thread : Bool
  pub recv_interrupted : Bool
  pub send_interrupted : Bool
  pub main : MainPc
  pub reader : Pc
  pub writer : Pc
  -- What the system has seen: the arguments of `close`, the bytes of `recv` and those of `send`.
  pub closes : List ℤ
  pub received : List ℕ
  pub wire : List ℕ

-- `ThreadsTcpBroWorker(context)`, before `doWork`.
abbrev pub new_worker : SocketContext → Worker
new_worker context = record {
  client_fd = context.client_fd;
  client_addr = context.client_addr;
  request = context.request;
  response = context.response;
  mutex = free;
  is_read_enabled = true;
  is_write_enabled = false;
  recv_thread = false;
  send_thread = false;
  recv_interrupted = false;
  send_interrupted = false;
  main = begin;
  reader = unborn;
  writer = unborn;
  closes = [];
  received = [];
  wire = [];
}

-- The cast at the beginning of both handlers: a context of another class ends the thread at once.
abbrev pub cast_pc : ClientAddr → Pc
cast_pc (ipv4 a p) = top
cast_pc (ipv6 a p) = finished
cast_pc plain = finished

-- `notify_one` on the condition variable of the other thread.
abbrev pub wake : Pc → Pc
wake sleeping = checking
wake pc = pc

-- `close(socket_context->mClientFd)`, when l has locked `mMutex`.
abbrev pub close_fd : Lock → Worker → Worker
close_fd l w = record w { mutex = l; closes = w.closes ++ w.client_fd ∷ [] }

-- `socket_context->mClientFd = INVALID_FD`, and the end of the section.
abbrev pub clear_fd : Worker → Worker
clear_fd w = record w { mutex = free; client_fd = invalid_fd }

-- The receiving thread in its section under `mMutex`, by who holds the mutex.
abbrev pub read_closing : Lock → Worker → Worker
read_closing free w = close_fd by_reader w
read_closing by_reader w = record (clear_fd w) { reader = enabling }
read_closing by_writer w = w

abbrev pub write_closing : Lock → Worker → Worker
write_closing free w = close_fd by_writer w
write_closing by_reader w = w
write_closing by_writer w = record (clear_fd w) { writer = enabling }

-- The descriptor that the context holds: none while the one that it names has been closed already.
abbrev pub held_by : Lock → ℤ → ℤ
held_by free fd = fd
held_by by_reader fd = invalid_fd
held_by by_writer fd = invalid_fd

abbrev pub held_fd : Worker → ℤ
held_fd w = held_by w.mutex w.client_fd

abbrev pub chunk_of : Incoming → List ℕ
chunk_of (got chunk) = chunk
chunk_of (failed e) = []

-- What `handleReadEvent` does with the result of `recv`.
abbrev pub after_recv : Incoming → Worker → Worker
after_recv a w =
    if is_neg (ret a)
    then (if try_again (errno_after a 0)
        then record w { reader = top }
        else record w { reader = closing })
    else if is_zero (ret a)
    then record w { reader = closing }
    else record w { reader = appending (chunk_of a); received = w.received ++ chunk_of a }

-- One step of `handleReadEvent`; `a` is what `recv` meets, if the thread stands there.
unfoldable pub read_at : Pc → Incoming → Worker → Worker
read_at unborn a w = w
read_at starting a w = record w { reader = cast_pc w.client_addr }
read_at top a w =
    if w.recv_interrupted
    then record w { reader = closing; recv_interrupted = false }
    else record w { reader = checking }
read_at checking a w =
    if w.is_read_enabled then record w { reader = calling_recv } else record w { reader = sleeping }
read_at sleeping a w = w
read_at calling_recv a w = record w { reader = in_recv w.client_fd }
read_at (in_recv fd) a w = after_recv a w
read_at (appending chunk) a w = record w { reader = top; request = w.request ++ chunk }
read_at closing a w = read_closing w.mutex w
read_at enabling a w = record w { reader = interrupting; is_write_enabled = true }
read_at interrupting a w = record w {
  reader = notifying;
  send_interrupted = w.send_interrupted || w.send_thread;
}
read_at notifying a w = record w { reader = finished; writer = wake w.writer }
read_at _ a w = w

-- What `handleWriteEvent` does with the result of `send_bytes`.
abbrev pub after_send : Run (List ℕ) → Worker → Worker
after_send (returned true wire) w = record w { writer = top; wire = w.wire ++ wire }
after_send (returned false wire) w = record w { writer = closing; wire = w.wire ++ wire }
after_send (waiting wire) w = w

-- One step of `handleWriteEvent`; `answers` are what `send` answers, if the thread stands there.
unfoldable pub write_at : Pc → List Answer → Worker → Worker
write_at unborn answers w = w
write_at starting answers w = record w { writer = cast_pc w.client_addr }
write_at top answers w =
    if w.send_interrupted
    then record w { writer = closing; send_interrupted = false }
    else record w { writer = checking }
write_at checking answers w =
    if w.is_write_enabled
    then record w { writer = copying; is_write_enabled = false }
    else record w { writer = sleeping }
write_at sleeping answers w = w
write_at copying answers w = record w { writer = calling_send w.response }
write_at (calling_send response) answers w = record w { writer = in_send w.client_fd response }
write_at (in_send fd response) answers w = after_send (send_bytes 0 response answers) w
write_at closing answers w = write_closing w.mutex w
write_at enabling answers w = record w { writer = interrupting; is_read_enabled = true }
write_at interrupting answers w = record w {
  writer = notifying;
  recv_interrupted = w.recv_interrupted || w.recv_thread;
}
write_at notifying answers w = record w { writer = finished; reader = wake w.reader }
write_at _ answers w = w

-- One step of `doWork`.
unfoldable pub main_at : MainPc → Worker → Worker
main_at begin w = record w { main = recv_spawned; reader = starting }
main_at recv_spawned w = record w { main = recv_assigned; recv_thread = true }
main_at recv_assigned w = record w { main = send_spawned; writer = starting }
main_at send_spawned w = record w { main = joining_recv; send_thread = true }
main_at joining_recv w = elim w.reader [ finished ↦ record w { main = joining_send } | _ ↦ w ]
main_at joining_send w = elim w.writer [ finished ↦ record w { main = returned_true } | _ ↦ w ]
main_at returned_true w = w

-- Whose turn it is, with the system's answers. The last five are other threads of the program.
pub data Turn : Type 0 where
  mains : Turn
  reads : Incoming → Turn
  writes : List Answer → Turn
  wakes_reader wakes_writer : Turn  -- a thread wakes with no notification
  enables_read enables_write disables_read disables_write : Turn
  responds : List ℕ → Turn

-- A thread that cannot go on in its turn leaves everything as it is.
unfoldable pub step : Turn → Worker → Worker
step mains w = main_at w.main w
step (reads a) w = read_at w.reader a w
step (writes answers) w = write_at w.writer answers w
step wakes_reader w = record w { reader = wake w.reader }
step wakes_writer w = record w { writer = wake w.writer }
step enables_read w = record w { is_read_enabled = true }
step enables_write w = record w { is_write_enabled = true }
step disables_read w = record w { is_read_enabled = false }
step disables_write w = record w { is_write_enabled = false }
step (responds response) w = record w { response = response }

unfoldable pub run : List Turn → Worker → Worker
run [] w = w
run (t ∷ turns) w = run turns (step t w)
