-- ===== src/Io/Recv/Tests.antt =====
-- Runs of `recv_bytes`.
use net_utils.Base.{ℕ, ◌≡◌, refl, true, false, List, [], ◌∷◌, arith}
use net_utils.Io.Run.{returned}
use net_utils.Io.Recv.{got, failed, recv_loop, recv_bytes}
use net_utils.Io.Recv.Delivery.{
  Receives, enough, piece, retry, recv_bytes-Receives, recv_bytes-eq-returned,
}
use net_utils.Io.Recv.Reference.{collect, over, recv_bytes-eq-collect}

abbrev blank : List ℕ
blank = 0 ∷ 0 ∷ 0 ∷ []

abbrev three : List ℕ
three = 10 ∷ 20 ∷ 30 ∷ []

retried :
    recv_bytes 0 blank (got (10 ∷ []) ∷ failed 11 ∷ got (20 ∷ 30 ∷ []) ∷ []) ≡ returned true three
unfolding recv_bytes recv_loop
retried = refl

closed_by_peer : recv_bytes 0 blank (got (10 ∷ []) ∷ got [] ∷ []) ≡ returned false (10 ∷ 0 ∷ 0 ∷ [])
unfolding recv_bytes recv_loop
closed_by_peer = refl

reset_by_peer : recv_bytes 0 blank (failed 104 ∷ []) ≡ returned false blank
unfolding recv_bytes recv_loop
reset_by_peer = refl

recv_bytes-Receives_test :
    Receives [] blank (10 ∷ []) (recv_bytes 0 blank (got (10 ∷ []) ∷ got [] ∷ []))
recv_bytes-Receives_test =
    recv_bytes-Receives 0 blank (got (10 ∷ []) ∷ got [] ∷ []) (omega arith) (omega arith)

recv_bytes-eq-returned_test :
    recv_bytes 0 blank (got (10 ∷ []) ∷ failed 11 ∷ got (20 ∷ 30 ∷ []) ∷ []) ≡ returned true three
recv_bytes-eq-returned_test =
    recv_bytes-eq-returned 0 blank three _ (omega arith) refl
      (piece 10 [] (20 ∷ 30 ∷ []) _ (retry 11 _ _ refl (piece 20 (30 ∷ []) [] _ (enough []))))

recv_bytes-eq-collect_example :
    recv_bytes 0 blank (got (10 ∷ []) ∷ failed 11 ∷ failed 104 ∷ [])
    ≡ over blank (collect [] 3 (got (10 ∷ []) ∷ failed 11 ∷ failed 104 ∷ []))
recv_bytes-eq-collect_example =
    recv_bytes-eq-collect 0 blank (got (10 ∷ []) ∷ failed 11 ∷ failed 104 ∷ []) (omega arith)
      (omega arith, tt)
