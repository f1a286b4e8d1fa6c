-- ===== src/Handle/Idle.antt =====
-- The sending thread of a client handle after its client has gone.
use net_utils.Base.{◌≡◌, refl, ◌≢◌, ◌⊎◌, List, [], ◌∷◌, arith}
use net_utils.Handle.{
  HandleClass, ipv4_handle, ipv6_handle, Reading, testing, sleeping, joining_read, joining_write,
  joined, Handle, read_at, write_at, main_at, Turn, mains, reads, writes, wakes, step, run,
}

-- The IPv4 class tests the queue again when it wakes; the IPv6 class goes on with no test, so
-- what follows is about the orders in which its sending thread does not wake by itself.
abbrev pub QuietAt : HandleClass → Turn → Type 0
QuietAt ipv6_handle wakes = ⊥
QuietAt _ _ = Unit

abbrev pub Quiet : HandleClass → List Turn → Type 0
Quiet c [] = Unit
Quiet c (t ∷ turns) = QuietAt c t × Quiet c turns

record Idle (c : HandleClass) (h : Handle) : Type 0 where
  of_class : h.handle_class ≡ c
  gone : h.reader ≡ Reading.finished
  empty : h.queue ≡ []
  waits : (h.writer ≡ testing) ⊎ (h.writer ≡ sleeping)
  joins : (h.main ≡ joining_read) ⊎ (h.main ≡ joining_write)

step-Idle : (c : HandleClass) (t : Turn) (h : Handle) → QuietAt c t → Idle c h → Idle c (step t h)
unfolding step read_at write_at main_at
step-Idle c mains h quiet s = ground arith
step-Idle c (reads i) h quiet s = ground arith
step-Idle c (writes answers) h quiet s = ground arith
step-Idle ipv4_handle wakes h quiet s = ground arith
step-Idle ipv6_handle wakes h quiet s = absurd quiet

run-Idle :
    (c : HandleClass) (turns : List Turn) (h : Handle)
    → Quiet c turns
    → Idle c h
    → Idle c (run turns h)
unfolding run
run-Idle c [] h quiet s = s
run-Idle c (t ∷ turns) h quiet s = run-Idle c turns (step t h) quiet.1 (step-Idle c t h quiet.0 s)

Idle-main : (c : HandleClass) (h : Handle) → Idle c h → h.main ≢ joined
Idle-main c h s e = ground arith

-- When the receiving thread of a handle has ended and the queue is empty while the sending thread waits
-- for a message, or is about to, and `doWork` waits for either thread, it never returns, whatever the
-- threads do. In the IPv4 class that holds however often the sending thread wakes, for it looks at the
-- descriptor only behind the test of the queue; in the IPv6 class, when it does not wake by itself.
pub idle-hangs :
    (h : Handle) (turns : List Turn)
    → h.reader ≡ Reading.finished
    → h.queue ≡ []
    → (h.writer ≡ testing) ⊎ (h.writer ≡ sleeping)
    → (h.main ≡ joining_read) ⊎ (h.main ≡ joining_write)
    → Quiet h.handle_class turns
    → (run turns h).main ≢ joined
idle-hangs h turns gone empty waits joins quiet = Idle-main h.handle_class (run turns h) (
    run-Idle h.handle_class turns h quiet
      (record { of_class = refl; gone = gone; empty = empty; waits = waits; joins = joins }))
