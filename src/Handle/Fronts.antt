-- ===== src/Handle/Fronts.antt =====
-- The front of the message queue: the IPv4 class tests the queue after each wake-up, the IPv6 class
-- does not.
use net_utils.Base.{ℕ, ◌<◌, ◌^◌, ◌≡◌, ◌≢◌, refl, Bool, List, [], ◌∷◌, ◌++◌, length, pos, arith}
use net_utils.Io.Run.{Run, returned}
use net_utils.Io.Send.{Answer, send_bytes}
use net_utils.Io.Recv.{got}
use net_utils.Handle.{
  ipv4_handle, ipv6_handle, pushing, Writing, sending, woken, undefined, Handle, new_handle,
  message, after_recv, after_send, read_at, write_at, main_at, Turn, mains, reads, writes, wakes,
  step, run,
}

abbrev IsSound : Writing → Type 0
IsSound undefined = ⊥
IsSound woken = ⊥
IsSound _ = Unit

record Sound (h : Handle) : Type 0 where
  class4 : h.handle_class ≡ ipv4_handle
  sound : IsSound h.writer

after_send-Sound : (r : Run (List ℕ)) (h : Handle) → Sound h → Sound (after_send h.handle_class r h)
after_send-Sound r h s = ground arith

write_at-Sound :
    (pc : Writing) (answers : List Answer) (h : Handle)
    → h.writer ≡ pc
    → Sound h
    → Sound (write_at pc answers h)
unfolding write_at
write_at-Sound (sending msg) answers h e s = after_send-Sound (send_bytes 0 msg answers) h s
write_at-Sound pc answers h e s = ground arith

step-Sound : (t : Turn) (h : Handle) → Sound h → Sound (step t h)
unfolding step read_at main_at
step-Sound mains h s = ground arith
step-Sound (reads i) h s = ground arith
step-Sound (writes answers) h s = write_at-Sound h.writer answers h refl s
step-Sound wakes h s = ground arith

run-Sound : (turns : List Turn) (h : Handle) → Sound h → Sound (run turns h)
unfolding run
run-Sound [] h s = s
run-Sound (t ∷ turns) h s = run-Sound turns (step t h) (step-Sound t h s)

-- The sending thread of an IPv4 handle never takes the front of an empty queue, in any order of the
-- threads and with any wake-ups.
pub run-ne-undefined :
    (n : ℕ) (turns : List Turn) → (run turns (new_handle ipv4_handle (pos n))).writer ≢ undefined
run-ne-undefined n turns =
    by_sound (run turns (new_handle ipv4_handle (pos n)))
      (run-Sound turns (new_handle ipv4_handle (pos n)) (record { class4 = refl; sound = tt }))
  where
    by_sound : (h : Handle) → Sound h → h.writer ≢ undefined
    by_sound h s e = ground arith

-- A message is pushed; before its notification the sending thread has sent it and sleeps again.
abbrev pub late_notice : List ℕ → List Answer → List Turn
late_notice chunk answers =
    mains
    ∷ mains
    ∷ reads (got chunk)
    ∷ reads (got [])
    ∷ writes []
    ∷ writes answers
    ∷ writes []
    ∷ reads (got [])
    ∷ writes []
    ∷ []

pub after_recv-got :
    (chunk : List ℕ) (h : Handle)
    → 0 < length chunk
    → length chunk < 2 ^ 31
    → after_recv (got chunk) h
      ≡ record h { reader = pushing (message h.handle_class chunk); received = h.received ++ chunk }
after_recv-got chunk h some small = ground arith

-- With a client of the IPv6 class that sends one piece, of fewer than 2^31 bytes, the sending thread
-- can take the front of an empty queue, with no wake-up that was not notified, whatever becomes of
-- sending the message.
late_notice-undefined :
    (n : ℕ) (chunk wire : List ℕ) (answers : List Answer) (b : Bool)
    → 0 < length chunk
    → length chunk < 2 ^ 31
    → send_bytes 0 (message ipv6_handle chunk) answers ≡ returned b wire
    → (run (late_notice chunk answers) (new_handle ipv6_handle (pos n))).writer ≡ undefined
unfolding run step read_at write_at main_at
late_notice-undefined n chunk wire answers b some small e =
    rw
      (
        after_recv-got chunk (run (mains ∷ mains ∷ []) (new_handle ipv6_handle (pos n))) some small,
        e,
      )
      refl
