-- ===== src/Io/RoundTrip.antt =====
-- `send_bytes` on one end of a connection and `recv_bytes` on the other.
use net_utils.Base.{ℕ, ◌^◌, ◌<◌, ◌≡◌, ap, sym, ◌∙◌, subst, true, List, length, arith}
use net_utils.Io.Run.{returned}
use net_utils.Io.Send.{Answer, send_bytes}
use net_utils.Io.Send.Delivery.{Counts, Delivers, send_bytes-Delivers}
use net_utils.Io.Recv.{Incoming, recv_bytes}
use net_utils.Io.Recv.Delivery.{Feeds, recv_bytes-eq-returned}

-- When `send_bytes` has returned true without a failure of `send`, and the bytes that it put on the
-- wire reach the other end in pieces of any size, `recv_bytes` into a buffer of the same length
-- returns true with the sender's buffer.
pub recv_bytes-send_bytes :
    (errno errno' : ℕ) (buf wire into : List ℕ) (answers : List Answer) (incoming : List Incoming)
    → length buf < 2 ^ 31
    → length into ≡ length buf
    → Counts (length buf) answers
    → send_bytes errno buf answers ≡ returned true wire
    → Feeds incoming wire
    → recv_bytes errno' into incoming ≡ returned true buf
recv_bytes-send_bytes errno errno' buf wire into answers incoming small fit c sent f =
    let whole = subst (Delivers buf) sent (send_bytes-Delivers errno buf answers (omega arith) c) in
    recv_bytes-eq-returned errno' into wire incoming (omega arith) (ap length whole ∙ sym fit) f
    ∙ ap (returned true) whole
