-- ===== src/Handle/Sends/Losing.antt =====
-- The loop over one message once every `send` fails.
use net_utils.Base.{
  ℕ, zero, suc, ◌+◌, ◌-◌, ◌%◌, ◌^◌, ◌<◌, ◌≡◌, refl, ap, ◌∙◌, true, false, List, [], ◌∷◌, append-nil,
  ltb, length, arith,
}
use net_utils.Io.Run.{returned}
use net_utils.Io.Send.{failed}
use net_utils.Handle.{
  HandleClass, ipv4_handle, ipv6_handle, Handle, Writing, sending, checking, testing, after_send,
}
use net_utils.Handle.Sends.{
  testing_size, in_call, Sender, leaves_loop, records_send, SendTurn, sends_on, sender_step,
  sender_run,
}
use net_utils.Handle.Sends.Rounds.{test_step, call_step, after_call-eq}

-- Where the sending thread goes when it is through with a message.
abbrev pub after_message : HandleClass → Writing
after_message ipv4_handle = checking
after_message ipv6_handle = testing

-- Two turns for each byte in front of the next one, and for this one; and the last test.
abbrev pub losing : ℕ → ℕ → List SendTurn
losing errno zero = sends_on (failed errno) ∷ sends_on (failed errno) ∷ sends_on (failed errno) ∷ []
losing errno (suc total) = sends_on (failed errno) ∷ sends_on (failed errno) ∷ losing errno total

abbrev with_writer : Writing → Handle → List ℕ → Handle
with_writer pc h wire = record h { writer = pc; wire = wire }

leaves-true :
    (c : HandleClass) (s : Sender)
    → s.handle.handle_class ≡ c
    → (leaves_loop true s).handle ≡ with_writer (after_message c) s.handle s.handle.wire
leaves-true c s e = ap (λ d. after_send d (returned true []) s.handle) e ∙ by_class c
  where
    by_class :
        (d : HandleClass)
        → after_send d (returned true []) s.handle
          ≡ with_writer (after_message d) s.handle s.handle.wire
    by_class ipv4_handle = ap (with_writer checking s.handle) (append-nil s.handle.wire)
    by_class ipv6_handle = ap (with_writer testing s.handle) (append-nil s.handle.wire)

-- A round with a `send` that fails steps back by one byte.
failed_round :
    (msg : List ℕ) (total errno : ℕ) (s : Sender)
    → s.handle.writer ≡ sending msg
    → s.loop ≡ testing_size total
    → ltb total (length msg) ≡ true
    → sender_step (sends_on (failed errno)) (sender_step (sends_on (failed errno)) s)
      ≡ record (records_send s.handle.client_fd [] s) {
        loop = testing_size ((total + (2 ^ 64 - 1)) % 2 ^ 64);
      }
failed_round msg total errno s at place more =
    ap (sender_step (sends_on (failed errno)))
      (test_step msg total (failed errno) s true at place more)
    ∙ call_step msg s.handle.client_fd total (failed errno) s at
    ∙ after_call-eq msg total (failed errno)
        (records_send s.handle.client_fd [] (record s { loop = in_call s.handle.client_fd total }))
        false refl

-- When every `send` fails from now on, as it does once the receiving thread has closed the descriptor
-- and cleared it, the loop of a handle of either class at position `total` of a message of less than
-- 2^64 bytes ends: each failure takes it back by one byte, and the one at the first byte out of the loop.
-- Then nothing more has been sent, and the sending thread goes on as after a whole message.
pub losing-leaves :
    (total : ℕ) (msg : List ℕ) (errno : ℕ) (s : Sender)
    → length msg < 2 ^ 64
    → total < length msg
    → s.handle.writer ≡ sending msg
    → s.loop ≡ testing_size total
    → (sender_run (losing errno total) s).handle
      ≡ record s.handle { writer = after_message s.handle.handle_class }
unfolding sender_run
losing-leaves zero msg errno s small more at place =
    let s1 = record (records_send s.handle.client_fd [] s) { loop = testing_size (2 ^ 64 - 1) } in
    ap (λ t. (sender_step (sends_on (failed errno)) t).handle)
      (failed_round msg 0 errno s at place (ground arith))
    ∙ ap (λ t. t.handle) (test_step msg (2 ^ 64 - 1) (failed errno) s1 false at refl (ground arith))
    ∙ leaves-true s.handle.handle_class s1 refl
    ∙ ap (with_writer (after_message s.handle.handle_class) s.handle) (append-nil s.handle.wire)
losing-leaves (suc total) msg errno s small more at place =
    let back : (suc total + (2 ^ 64 - 1)) % 2 ^ 64 ≡ total = omega arith in
    let s1 = record (records_send s.handle.client_fd [] s) {
      loop = testing_size ((suc total + (2 ^ 64 - 1)) % 2 ^ 64);
    } in
    ap (λ t. (sender_run (losing errno total) t).handle)
      (failed_round msg (suc total) errno s at place (ground arith))
    ∙ losing-leaves total msg errno s1 small (omega arith) at (ap testing_size back)
    ∙ ap (with_writer (after_message s.handle.handle_class) s.handle) (append-nil s.handle.wire)
