-- ===== src/Handle/Tests.antt =====
-- Runs of a client handle on concrete clients.
use net_utils.Base.{◌≤◌, ◌≡◌, ◌≢◌, inl, refl, true, false, List, [], ◌∷◌, ◌++◌, pos, arith}
use net_utils.Context.{invalid_fd}
use net_utils.Io.Run.{returned}
use net_utils.Io.Send.{sent, send_bytes, send_loop}
use net_utils.Io.Recv.{got}
use net_utils.Io.Send.Delivery.{send_bytes-eq-returned}
use net_utils.Worker.Closing.{closes_of}
use net_utils.Handle
use net_utils.Handle.{
  ipv4_handle, ipv6_handle, Reading, receiving, Writing, sleeping, testing, joining_read, message,
  until_zero, undefined, joining_write, joined, Handle, new_handle, Turn, mains, reads, writes,
  wakes, step, run, read_at, write_at, main_at,
}
use net_utils.Handle.Idle.{Quiet}
use net_utils.Handle.Echo.{Honest, Clean, Clean-ipv4}
use net_utils.Handle.Fronts.{late_notice}
use net_utils.Handle.Closing.{both_close}

abbrev start : Handle
start = new_handle ipv4_handle (pos 4)

-- One byte goes around, and the sending thread sleeps again.
abbrev echoed : List Turn
echoed =
    mains
    ∷ mains
    ∷ writes []
    ∷ reads (got (7 ∷ []))
    ∷ reads (got [])
    ∷ reads (got [])
    ∷ writes []
    ∷ writes (sent 1 ∷ [])
    ∷ writes []
    ∷ writes []
    ∷ []

sent_one : send_bytes 0 (7 ∷ []) (sent 1 ∷ []) ≡ returned true (7 ∷ [])
sent_one =
    send_bytes-eq-returned 0 (7 ∷ []) (sent 1 ∷ []) (omega arith) (omega arith, tt)
      (omega arith, tt) (omega arith)

echoed-Honest : Honest echoed start
unfolding run step read_at write_at main_at
echoed-Honest = (
  tt,
  (
    tt,
    (
      tt,
      (
        tt,
        (
          tt,
          (tt, (tt, ((omega arith, (omega arith, tt)), (rw sent_one tt, (rw sent_one tt, tt))))),
        ),
      ),
    ),
  ),
)

echoed_state :
    ((run echoed start).writer ≡ sleeping)
    × ((run echoed start).queue ≡ [])
    × ((run echoed start).reader ≡ receiving)
unfolding run step read_at write_at main_at
echoed_state = rw sent_one (refl, refl, refl)

run-echoes_all_test : (run echoed start).wire ≡ (run echoed start).received
run-echoes_all_test =
    Handle.Echo.Delivery.run-echoes_all ipv4_handle (pos 4) echoed echoed-Honest
      (Clean-ipv4 echoed start) echoed_state.0 echoed_state.1 echoed_state.2

-- The client leaves: the receiving thread ends, and wakes the sending thread.
abbrev gone : List Turn
gone = reads (got []) ∷ reads (got []) ∷ reads (got []) ∷ reads (got []) ∷ []

gone_state :
    ((run gone (run echoed start)).reader ≡ Reading.finished)
    × ((run gone (run echoed start)).queue ≡ [])
    × ((run gone (run echoed start)).writer ≡ testing)
    × ((run gone (run echoed start)).main ≡ joining_read)
unfolding run step read_at write_at main_at
gone_state = rw sent_one (refl, refl, refl, refl)

class4 : (run gone (run echoed start)).handle_class ≡ ipv4_handle
unfolding run step read_at write_at main_at
class4 = rw sent_one refl

gone-Quiet : Quiet (run gone (run echoed start)).handle_class (wakes ∷ mains ∷ writes [] ∷ [])
gone-Quiet = rw class4 (tt, (tt, (tt, tt)))

idle-hangs_example :
    (run (wakes ∷ mains ∷ writes [] ∷ []) (run gone (run echoed start))).main ≢ joined
idle-hangs_example =
    Handle.Idle.idle-hangs (run gone (run echoed start)) (wakes ∷ mains ∷ writes [] ∷ [])
      gone_state.0 gone_state.1 (inl gone_state.2) (inl gone_state.3) gone-Quiet

run-ne-undefined_example : (run echoed start).writer ≢ undefined
run-ne-undefined_example = Handle.Fronts.run-ne-undefined 4 echoed

sent_six : send_bytes 0 (message ipv6_handle (7 ∷ [])) (sent 1 ∷ []) ≡ returned true (7 ∷ [])
unfolding until_zero
sent_six = sent_one

-- The second byte is never taken: the peer has closed.
cut_off : send_bytes 0 (7 ∷ 8 ∷ []) (sent 1 ∷ sent 0 ∷ []) ≡ returned false (7 ∷ [])
unfolding send_bytes send_loop
cut_off = refl

-- Both threads end and are joined.
abbrev ended : List Turn
ended =
    both_close (7 ∷ 8 ∷ []) (sent 1 ∷ sent 0 ∷ [])
    ++ reads (got []) ∷ reads (got []) ∷ writes [] ∷ mains ∷ mains ∷ []

ended_joined : (run ended start).main ≡ joined
unfolding run step read_at write_at main_at
ended_joined = rw cut_off refl

joined-closed_test :
    ((run ended start).reader ≡ Reading.finished)
    × ((run ended start).writer ≡ Writing.finished)
    × ((run ended start).client_fd ≡ invalid_fd)
    × (1 ≤ closes_of 4 (run ended start).closes)
    × (closes_of 4 (run ended start).closes ≤ 2)
joined-closed_test = Handle.Closing.joined-closed ipv4_handle 4 ended ended_joined
