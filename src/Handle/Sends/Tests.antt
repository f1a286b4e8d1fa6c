-- ===== src/Handle/Sends/Tests.antt =====
-- A handle that sends a message of three bytes in pieces.
use net_utils.Base.{ℕ, ◌≡◌, refl, true, List, [], ◌∷◌, ◌++◌, map, All, pos, arith}
use net_utils.Io.Run.{returned}
use net_utils.Io.Send.{sent, send_bytes, send_loop}
use net_utils.Io.Recv.{got}
use net_utils.Handle
use net_utils.Handle.{ipv4_handle, sending, step, read_at, write_at, main_at, writes}
use net_utils.Handle.Sends.{
  testing_size, Sender, new_sender, SendTurn, sends_on, mains_on, reads_on, loop_step, writer_step,
  sender_step, sender_run,
}
use net_utils.Handle.Sends.Rounds.{OfSender}
use net_utils.Handle.Sends.Losing.{losing, after_message}
use net_utils.Handle.Sends.Owning.{Owns, bytes_of}

-- The message 7, 8, 9 has come, and the sending thread has taken it.
abbrev message_taken : List SendTurn
message_taken =
    mains_on
    ∷ mains_on
    ∷ reads_on (got (7 ∷ 8 ∷ 9 ∷ []))
    ∷ reads_on (got [])
    ∷ sends_on (sent 0)
    ∷ []

abbrev sender : Sender
sender = sender_run message_taken (new_sender ipv4_handle (pos 4))

abbrev text_789 : List ℕ
text_789 = 7 ∷ 8 ∷ 9 ∷ []

taken : sender.handle.writer ≡ sending text_789
unfolding sender_run sender_step writer_step loop_step step read_at write_at main_at
taken = refl

at_beginning : sender.loop ≡ testing_size 0
unfolding sender_run sender_step writer_step loop_step step read_at write_at main_at
at_beginning = refl

in_two_pieces : send_bytes 0 text_789 (sent 2 ∷ sent 1 ∷ []) ≡ returned true text_789
unfolding send_bytes send_loop
in_two_pieces = refl

sender_run-writes_example :
    (turns : List SendTurn) × All OfSender turns
    × ((sender_run turns sender).handle ≡ step (writes (sent 2 ∷ sent 1 ∷ [])) sender.handle)
sender_run-writes_example =
    Handle.Sends.Rounds.sender_run-writes sender text_789 (sent 2 ∷ sent 1 ∷ []) true text_789 taken
      at_beginning in_two_pieces

-- Two bytes are out, and the client is gone.
abbrev halfway : Sender
halfway = sender_run (sends_on (sent 2) ∷ sends_on (sent 2) ∷ []) sender

taken_still : halfway.handle.writer ≡ sending text_789
unfolding sender_run sender_step writer_step loop_step step read_at write_at main_at
taken_still = refl

at_second : halfway.loop ≡ testing_size 2
unfolding sender_run sender_step writer_step loop_step step read_at write_at main_at
at_second = refl

losing-leaves_example :
    (sender_run (losing 9 2) halfway).handle
    ≡ record halfway.handle { writer = after_message halfway.handle.handle_class }
losing-leaves_example =
    Handle.Sends.Losing.losing-leaves 2 text_789 9 halfway (omega arith) (omega arith) taken_still
      at_second

-- The message goes out in two pieces.
abbrev three_bytes : List SendTurn
three_bytes = message_taken ++ map sends_on (sent 2 ∷ sent 2 ∷ sent 1 ∷ sent 1 ∷ [])

sender_run-Owns_test :
    All
      (λ call. Owns (pos 4) call.0)
      (sender_run three_bytes (new_sender ipv4_handle (pos 4))).sends
    × (bytes_of (sender_run three_bytes (new_sender ipv4_handle (pos 4))).sends
        ≡ (sender_run three_bytes (new_sender ipv4_handle (pos 4))).handle.wire)
sender_run-Owns_test = Handle.Sends.Owning.sender_run-Owns ipv4_handle (pos 4) three_bytes
