-- ===== src/Io/Send/Tests.antt =====
-- Runs of `send_bytes` on a buffer of three bytes.
use net_utils.Base.{none, some, ℕ, ◌≡◌, refl, true, false, List, [], ◌∷◌, arith}
use net_utils.Io.Run.{returned, waiting}
use net_utils.Io.Send.{sent, failed, send_loop, send_bytes}
use net_utils.Io.Send.Delivery.{Delivers, send_bytes-Delivers, send_bytes-eq-returned}
use net_utils.Io.Send.Traced.{traced_send_bytes, traced_send_bytes-eq-send_bytes}
use net_utils.Io.Send.Failure.{send_bytes-resends}

abbrev three : List ℕ
three = 10 ∷ 20 ∷ 30 ∷ []

short_writes : send_bytes 0 three (sent 2 ∷ sent 1 ∷ []) ≡ returned true three
unfolding send_bytes send_loop
short_writes = refl

closed_by_peer : send_bytes 0 three (sent 2 ∷ sent 0 ∷ []) ≡ returned false (10 ∷ 20 ∷ [])
unfolding send_bytes send_loop
closed_by_peer = refl

still_waiting : send_bytes 0 three (sent 2 ∷ []) ≡ waiting (10 ∷ 20 ∷ [])
unfolding send_bytes send_loop
still_waiting = refl

send_bytes-Delivers_example : Delivers three (send_bytes 0 three (sent 2 ∷ sent 0 ∷ []))
send_bytes-Delivers_example =
    send_bytes-Delivers 0 three (sent 2 ∷ sent 0 ∷ []) (omega arith) (omega arith)

send_bytes-eq-returned_example :
    send_bytes 0 three (sent 2 ∷ sent 1 ∷ sent 7 ∷ []) ≡ returned true three
send_bytes-eq-returned_example =
    send_bytes-eq-returned 0 three (sent 2 ∷ sent 1 ∷ sent 7 ∷ []) (omega arith) (omega arith)
      (omega arith) (omega arith)

-- EAGAIN (11) after two bytes.
send_bytes-resends_example :
    (send_bytes 0 three (sent 2 ∷ failed 11 ∷ sent 2 ∷ []) ≡ returned true (10 ∷ 20 ∷ 20 ∷ 30 ∷ []))
    × (traced_send_bytes 0 three (sent 2 ∷ failed 11 ∷ []) ≡ none)
send_bytes-resends_example =
    send_bytes-resends 0 11 2 three [] (omega arith) (omega arith) (omega arith)

traced_send_bytes-eq-send_bytes_example :
    traced_send_bytes 0 three (sent 2 ∷ sent 1 ∷ [])
    ≡ some (send_bytes 0 three (sent 2 ∷ sent 1 ∷ []))
traced_send_bytes-eq-send_bytes_example =
    traced_send_bytes-eq-send_bytes three (omega arith) 0 (sent 2 ∷ sent 1 ∷ []) (omega arith)
