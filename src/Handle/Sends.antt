-- ===== src/Handle/Sends.antt =====
-- `handleWriteEvent` of src/NetUtils/services/tcp/multi_threads/IPV{4,6}ThreadsTcpServer.cpp, where each
-- round of the loop that sends a message is two steps: the test of the loop, where the descriptor is read
-- from the context, and the `send`. The other threads can come between.
pub mod Rounds
pub mod Losing
pub mod Owning
pub mod Echo
mod Tests
use net_utils.Base.{
  ℕ, ◌+◌, ◌-◌, ◌%◌, ◌^◌, Bool, true, false, List, [], ◌∷◌, ◌++◌, ℤ, pos, to_unsigned, ltb, ◌==◌,
  if◌then◌else◌, length, take, drop,
}
use net_utils.Io.Run.{Run, returned, waiting, try_again}
use net_utils.Io.Send.{Answer, ret, errno_after, taken}
use net_utils.Io.Recv.{Incoming}
use net_utils.Handle.{
  HandleClass, Handle, new_handle, Writing, sending, after_send, Turn, mains, reads, writes, wakes,
  step,
}

-- Where the loop stands: before its test, or in `send` with this descriptor.
pub data SendPc : Type 0 where
  testing_size : (total_send : ℕ) → SendPc
  in_call : (fd : ℤ) (total_send : ℕ) → SendPc

-- A handle with its loop, which is at its beginning whenever no message is being sent, and with what
-- the system has taken from which `send`.
pub record Sender : Type 0 where
  pub handle : Handle
  pub loop : SendPc
  pub sends : List (ℤ × List ℕ)

abbrev pub new_sender : HandleClass → ℤ → Sender
new_sender c fd = record { handle = new_handle c fd; loop = testing_size 0; sends = [] }

-- The loop is over; what was sent is on the wire.
abbrev pub leaves_loop : Bool → Sender → Sender
leaves_loop ok s = record s {
  handle = after_send s.handle.handle_class (returned ok []) s.handle;
  loop = testing_size 0;
}

abbrev pub records_send : ℤ → List ℕ → Sender → Sender
records_send fd bytes s = record s {
  handle = record s.handle { wire = s.handle.wire ++ bytes };
  sends = s.sends ++ (fd, bytes) ∷ [];
}

-- What is done with the result of `send`, a `size_t`.
abbrev pub after_call : List ℕ → ℕ → Answer → Sender → Sender
after_call msg total_send a s =
    let sb = to_unsigned 64 (ret a) in
    if ltb sb 0
    then (if try_again (errno_after a 0)
        then record s { loop = testing_size total_send }
        else leaves_loop false s)
    else if sb == 0
    then leaves_loop false s
    else record s { loop = testing_size ((total_send + sb) % 2 ^ 64) }

unfoldable pub loop_step : List ℕ → SendPc → Answer → Sender → Sender
loop_step msg (testing_size total_send) a s =
    if ltb total_send (length msg)
    then record s { loop = in_call s.handle.client_fd total_send }
    else leaves_loop true s
loop_step msg (in_call fd total_send) a s =
    after_call msg total_send a
      (records_send fd (taken a (take (length msg - total_send) (drop total_send msg))) s)

-- The sending thread outside the loop; a message that it takes brings it to the beginning of the loop.
unfoldable pub writer_step : Writing → Answer → Sender → Sender
unfolding loop_step
writer_step (sending msg) a s = loop_step msg s.loop a s
writer_step pc a s = record s { handle = step (writes []) s.handle }

-- A turn of the sending thread with the answer that `send` gets, if it is in the call, or a turn of
-- another thread.
pub data SendTurn : Type 0 where
  sends_on : Answer → SendTurn
  mains_on wakes_on : SendTurn
  reads_on : Incoming → SendTurn

unfoldable pub sender_step : SendTurn → Sender → Sender
unfolding writer_step
sender_step (sends_on a) s = writer_step s.handle.writer a s
sender_step mains_on s = record s { handle = step mains s.handle }
sender_step wakes_on s = record s { handle = step wakes s.handle }
sender_step (reads_on a) s = record s { handle = step (reads a) s.handle }

unfoldable pub sender_run : List SendTurn → Sender → Sender
unfolding sender_step
sender_run [] s = s
sender_run (t ∷ turns) s = sender_run turns (sender_step t s)
