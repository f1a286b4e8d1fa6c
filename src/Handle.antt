-- ===== src/Handle.antt =====
-- IPV4ThreadsClientHandle and IPV6ThreadsClientHandle of
-- src/NetUtils/services/tcp/multi_threads/IPV{4,6}ThreadsTcpServer.cpp: an echo of what a client sends,
-- over a queue of messages between a receiving and a sending thread. A section under the mutex is one
-- step, and so is the loop that sends one message. `close` and the assignment after it are two: no
-- mutex guards the descriptor.
pub mod Echo
pub mod Channel
pub mod Draining
pub mod Idle
pub mod Fronts
pub mod Closing
pub mod Live
pub mod Own
pub mod Sends
mod Tests
use net_utils.Base.{ℕ, Bool, true, false, List, [], ◌∷◌, ◌++◌, ℤ, is_neg, ◌==◌, if◌then◌else◌}
use net_utils.Context.{invalid_fd, is_invalid}
use net_utils.Io.Run.{Run, returned, waiting, try_again}
use net_utils.Io.Send.{Answer, send_bytes}
use net_utils.Io.Recv.{Incoming, got, failed, ret, errno_after, is_zero}

pub data HandleClass : Type 0 where
  ipv4_handle ipv6_handle : HandleClass

-- Where `handleReadEvent` stands.
pub data Reading : Type 0 where
  unborn receiving : Reading
  pushing : (message : List ℕ) → Reading
  notifying closing clearing waking finished : Reading

-- Where `handleWriteEvent` stands. `testing` is before the lock and the test of the queue, `woken`
-- behind `wait` with no test after it; `undefined` has taken the front of an empty queue.
pub data Writing : Type 0 where
  unborn testing sleeping woken : Writing
  sending : (message : List ℕ) → Writing
  checking closing clearing finished undefined : Writing

pub data Main : Type 0 where
  begin read_spawned joining_read joining_write joined : Main

pub record Handle : Type 0 where
  pub handle_class : HandleClass
  pub client_fd : ℤ
  pub queue : List (List ℕ)
  pub main : Main
  pub reader : Reading
  pub writer : Writing
  -- What the system has seen: the arguments of `close`, the bytes of `recv` and those of `send`.
  pub closes : List ℤ
  pub received : List ℕ
  pub wire : List ℕ

abbrev pub new_handle : HandleClass → ℤ → Handle
new_handle c fd = record {
  handle_class = c;
  client_fd = fd;
  queue = [];
  main = begin;
  reader = Reading.unborn;
  writer = Writing.unborn;
  closes = [];
  received = [];
  wire = [];
}

-- The text before the first zero character; `recv_msg_buf` is zero behind the bytes received. That is
-- the string that `std::string(recv_msg_buf)` makes when one of the MAX_MESSAGEBUFF_LEN = 2^20 bytes
-- of the array is zero: when `recv` has filled the array with other bytes, the constructor reads past
-- its end, and what it makes is not modelled.
unfoldable pub until_zero : List ℕ → List ℕ
until_zero [] = []
until_zero (c ∷ cs) = let rest = until_zero cs in if c == 0 then [] else c ∷ rest

-- `std::string(recv_msg_buf, rb)`, and `std::string(recv_msg_buf)` in the IPv6 class.
abbrev pub message : HandleClass → List ℕ → List ℕ
message ipv4_handle chunk = chunk
message ipv6_handle chunk = until_zero chunk

-- Behind `wait`: the IPv4 class tests the queue again, the IPv6 class does not.
abbrev pub woken_pc : HandleClass → Writing
woken_pc ipv4_handle = testing
woken_pc ipv6_handle = woken

abbrev pub wake : HandleClass → Writing → Writing
wake c sleeping = woken_pc c
wake c pc = pc

abbrev pub chunk_of : Incoming → List ℕ
chunk_of (got chunk) = chunk
chunk_of (failed e) = []

-- What `handleReadEvent` does with the result of `recv`.
abbrev pub after_recv : Incoming → Handle → Handle
after_recv a h =
    if is_neg (ret a)
    then (if try_again (errno_after a 0) then h else record h { reader = Reading.closing })
    else if is_zero (ret a)
    then record h { reader = Reading.closing }
    else record h {
      reader = pushing (message h.handle_class (chunk_of a));
      received = h.received ++ chunk_of a;
    }

unfoldable pub read_at : Reading → Incoming → Handle → Handle
read_at Reading.unborn a h = h
read_at receiving a h = after_recv a h
read_at (pushing msg) a h = record h { reader = notifying; queue = h.queue ++ msg ∷ [] }
read_at notifying a h = record h { reader = receiving; writer = wake h.handle_class h.writer }
read_at Reading.closing a h = record h {
  reader = Reading.clearing;
  closes = h.closes ++ h.client_fd ∷ [];
}
read_at Reading.clearing a h = record h { reader = waking; client_fd = invalid_fd }
read_at waking a h = record h { reader = Reading.finished; writer = wake h.handle_class h.writer }
read_at Reading.finished a h = h

-- The end of `handleWriteEvent`: the IPv6 class closes the descriptor there, the IPv4 class does not.
abbrev pub leave : HandleClass → Handle → Handle
leave ipv4_handle h = record h { writer = Writing.finished }
leave ipv6_handle h = record h { writer = Writing.closing }

-- `mMessageQueue.front()` and `pop()`
abbrev pub take_front : List (List ℕ) → Handle → Handle
take_front [] h = record h { writer = undefined }
take_front (msg ∷ queue) h = record h { writer = sending msg; queue = queue }

-- What is done under the lock once the wait is over.
abbrev pub awake : Handle → Handle
awake h = if is_invalid h.client_fd then leave h.handle_class h else take_front h.queue h

abbrev pub test_queue : List (List ℕ) → Handle → Handle
test_queue [] h = record h { writer = sleeping }
test_queue (msg ∷ queue) h = awake h

-- After the loop over one message, which is the loop of `send_bytes`. If it has broken off, the IPv4
-- class closes; the IPv6 class goes on in either case.
abbrev pub after_send : HandleClass → Run (List ℕ) → Handle → Handle
after_send ipv4_handle (returned true wire) h = record h {
  writer = checking;
  wire = h.wire ++ wire;
}
after_send ipv4_handle (returned false wire) h = record h {
  writer = Writing.closing;
  wire = h.wire ++ wire;
}
after_send ipv6_handle (returned b wire) h = record h { writer = testing; wire = h.wire ++ wire }
after_send c (waiting wire) h = h

unfoldable pub write_at : Writing → List Answer → Handle → Handle
write_at Writing.unborn answers h = h
write_at testing answers h = test_queue h.queue h
write_at sleeping answers h = h
write_at woken answers h = awake h
write_at (sending msg) answers h = after_send h.handle_class (send_bytes 0 msg answers) h
write_at checking answers h =
    if is_invalid h.client_fd
    then record h { writer = Writing.finished }
    else record h { writer = testing }
write_at Writing.closing answers h = record h {
  writer = Writing.clearing;
  closes = h.closes ++ h.client_fd ∷ [];
}
write_at Writing.clearing answers h = record h { writer = Writing.finished; client_fd = invalid_fd }
write_at Writing.finished answers h = h
write_at undefined answers h = h

-- One step of `doWork`.
unfoldable pub main_at : Main → Handle → Handle
main_at begin h = record h { main = read_spawned; reader = receiving }
main_at read_spawned h = record h { main = joining_read; writer = testing }
main_at joining_read h = elim h.reader [
  | Reading.finished ↦ record h { main = joining_write }
  | _ ↦ h
]
main_at joining_write h = elim h.writer [ Writing.finished ↦ record h { main = joined } | _ ↦ h ]
main_at joined h = h

pub data Turn : Type 0 where
  mains : Turn
  reads : Incoming → Turn
  writes : List Answer → Turn
  wakes : Turn  -- the sending thread wakes with no notification

-- A thread that cannot go on in its turn leaves everything as it is.
unfoldable pub step : Turn → Handle → Handle
step mains h = main_at h.main h
step (reads a) h = read_at h.reader a h
step (writes answers) h = write_at h.writer answers h
step wakes h = record h { writer = wake h.handle_class h.writer }

unfoldable pub run : List Turn → Handle → Handle
run [] h = h
run (t ∷ turns) h = run turns (step t h)
