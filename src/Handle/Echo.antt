-- ===== src/Handle/Echo.antt =====
-- Where the bytes of the client of a handle are on their way back to it.
pub mod Steps
pub mod Delivery
mod Tests
use net_utils.Base.{
  ℕ, ◌<◌, ◌^◌, ◌≡◌, ◌≢◌, All, refl, sym, ap, ◌∙◌, true, false, List, [], ◌∷◌, ◌++◌, append_assoc,
  append-nil, take, drop, take-append-drop, length, ℤ, arith,
}
use net_utils.Io.Run.{Run, returned, waiting}
use net_utils.Io.Send.{Answer, send_bytes}
use net_utils.Io.Recv.{Incoming, got}
use net_utils.Io.Send.Delivery.{Counts, Progresses, Delivers, send_bytes-Delivers}
use net_utils.Handle.{
  HandleClass, ipv4_handle, ipv6_handle, Reading, receiving, pushing, Writing, testing, sleeping,
  woken, sending, undefined, Main, begin, read_spawned, Handle, new_handle, chunk_of, awake,
  take_front, test_queue, after_send, after_recv, read_at, write_at, main_at, Turn, mains, reads,
  writes, wakes, step, run,
}

-- The messages of a queue, one after the other.
unfoldable pub flatten : List (List ℕ) → List ℕ
flatten [] = []
flatten (msg ∷ queue) = msg ++ flatten queue

pub flatten-nil : flatten [] ≡ []
unfolding flatten
flatten-nil = refl

pub flatten-push :
    (queue : List (List ℕ)) (msg : List ℕ) → flatten (queue ++ msg ∷ []) ≡ flatten queue ++ msg
unfolding flatten
flatten-push [] msg = append-nil msg
flatten-push (m ∷ queue) msg =
    ap (◌++◌ m) (flatten-push queue msg) ∙ sym (append_assoc m (flatten queue) msg)

-- The message that a thread holds.
abbrev pub in_hand : Writing → List ℕ
in_hand (sending msg) = msg
in_hand _ = []

abbrev pub pending : Reading → List ℕ
pending (pushing msg) = msg
pending _ = []

-- While the sending thread goes on, what was received is on the wire, in its hand, in the queue or in
-- the hand of the receiving thread, in this order. When it has broken off, the wire is a prefix.
abbrev pub Whole : Handle → Type 0
Whole h = h.wire ++ (in_hand h.writer ++ (flatten h.queue ++ pending h.reader)) ≡ h.received

abbrev pub Part : Handle → Type 0
Part h = (rest : List ℕ) × (h.wire ++ rest ≡ h.received)

abbrev pub EchoAt : Writing → Handle → Type 0
EchoAt Writing.closing h = Part h
EchoAt Writing.clearing h = Part h
EchoAt Writing.finished h = Part h
EchoAt undefined h = Part h
EchoAt _ h = Whole h

abbrev pub Begun : Main → Reading → Writing → Type 0
Begun begin reader writer = (reader ≡ Reading.unborn) × (writer ≡ Writing.unborn)
Begun read_spawned reader writer = writer ≡ Writing.unborn
Begun _ reader writer = Unit

abbrev pub Spawned : Main → Type 0
Spawned begin = ⊥
Spawned read_spawned = ⊥
Spawned _ = Unit

pub record Echoing (c : HandleClass) (h : Handle) : Type 0 where
  pub of_class : h.handle_class ≡ c
  pub echo : EchoAt h.writer h
  pub begun : Begun h.main h.reader h.writer

-- `send` does not fail on the message and takes no more of it than it was offered.
abbrev pub HonestAt : Turn → Writing → Type 0
HonestAt (writes answers) (sending msg) = (length msg < 2 ^ 64) × Counts (length msg) answers
HonestAt _ _ = Unit

abbrev pub Honest : List Turn → Handle → Type 0
Honest [] h = Unit
Honest (t ∷ turns) h = HonestAt t h.writer × Honest turns (step t h)

-- What the IPv6 class needs besides: its messages end at a zero byte, the array of MAX_MESSAGEBUFF_LEN
-- bytes has one only when `recv` has not filled it, and when a message has broken off the class goes
-- on with the next one. So no byte is zero, no `recv` fills the array, and no `send` takes nothing.
abbrev pub CleanAt : HandleClass → Turn → Writing → Type 0
CleanAt ipv4_handle t pc = Unit
CleanAt ipv6_handle (reads (got chunk)) pc = All (λ b. b ≢ 0) chunk × (length chunk < 2 ^ 20)
CleanAt ipv6_handle (writes answers) (sending msg) = Progresses (length msg) answers
CleanAt ipv6_handle _ _ = Unit

abbrev pub Clean : HandleClass → List Turn → Handle → Type 0
Clean c [] h = Unit
Clean c (t ∷ turns) h = CleanAt c t h.writer × Clean c turns (step t h)

pub Clean-ipv4 : (turns : List Turn) (h : Handle) → Clean ipv4_handle turns h
Clean-ipv4 [] h = tt
Clean-ipv4 (t ∷ turns) h = (tt, Clean-ipv4 turns (step t h))

pub grow :
    (wire hand queue received chunk : List ℕ)
    → wire ++ (hand ++ (queue ++ [])) ≡ received
    → wire ++ (hand ++ (queue ++ chunk)) ≡ received ++ chunk
grow wire hand queue received chunk e = ground (
  arith,
  append-nil queue,
  append_assoc hand queue chunk,
  append_assoc wire (hand ++ queue) chunk,
)

pub extended :
    (h : Handle) (chunk : List ℕ)
    → Part h
    → (rest : List ℕ) × (h.wire ++ rest ≡ h.received ++ chunk)
extended h chunk (rest, e) = (rest ++ chunk, ground (arith, append_assoc h.wire rest chunk))

pub Part-Whole : (h : Handle) → Whole h → Part h
Part-Whole h e = (_, e)
