-- ===== src/Io/Tests.antt =====
-- Three bytes sent in two calls and received in two others.
use net_utils.Base.{ℕ, ◌≡◌, refl, true, List, [], ◌∷◌, arith}
use net_utils.Io.Run.{returned}
use net_utils.Io.Send.{sent}
use net_utils.Io.Send.Delivery.{send_bytes-eq-returned}
use net_utils.Io.Recv.{got, recv_bytes}
use net_utils.Io.Recv.Delivery.{enough, piece}
use net_utils.Io.RoundTrip.{recv_bytes-send_bytes}

abbrev three : List ℕ
three = 10 ∷ 20 ∷ 30 ∷ []

recv_bytes-send_bytes_example :
    recv_bytes 0 (0 ∷ 0 ∷ 0 ∷ []) (got (10 ∷ []) ∷ got (20 ∷ 30 ∷ []) ∷ []) ≡ returned true three
recv_bytes-send_bytes_example =
    recv_bytes-send_bytes 0 0 three three (0 ∷ 0 ∷ 0 ∷ []) (sent 2 ∷ sent 1 ∷ sent 7 ∷ []) _
      (omega arith) refl (omega arith)
      (send_bytes-eq-returned 0 three (sent 2 ∷ sent 1 ∷ sent 7 ∷ []) (omega arith) (omega arith)
        (omega arith) (omega arith))
      (piece 10 [] (20 ∷ 30 ∷ []) _ (piece 20 (30 ∷ []) [] _ (enough [])))
