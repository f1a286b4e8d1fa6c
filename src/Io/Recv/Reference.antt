-- ===== src/Io/Recv/Reference.antt =====
-- `recv_bytes` against a function that has neither a buffer nor positions.
use net_utils.Base.{
  ℕ, zero, suc, ◌+◌, ◌-◌, ◌^◌, ◌<◌, ◌≡◌, refl, ap, ◌∙◌, true, false, if◌then◌else◌, List, [], ◌∷◌,
  ◌++◌, arith, length, drop, length-append, length-drop, drop-drop, subst, Bool-cases, inl, inr,
  nil_of_length,
}
use net_utils.Io.Run.{Run, returned, waiting, try_again}
use net_utils.Io.Recv.{Incoming, got, failed, recv_loop, recv_bytes}
use net_utils.Io.Recv.Rounds.{done_round, waiting_round, got_round, closed_round, failed_round}
use net_utils.Io.Recv.Delivery.{Fits}

-- Collects pieces behind those that came already, until `left` more bytes are there, the peer closes
-- the connection, or a failure lasts.
pub collect : List ℕ → ℕ → List Incoming → Run (List ℕ)
collect came zero incoming = returned true came
collect came (suc left) [] = waiting came
collect came (suc left) (got [] ∷ incoming) = returned false came
collect came (suc left) (got (x ∷ c) ∷ incoming) =
    collect (came ++ x ∷ c) (left - length c) incoming
collect came (suc left) (failed e ∷ incoming) =
    let rest = collect came (suc left) incoming in if try_again e then rest else returned false came

-- The bytes at the front of the buffer, the rest of which is as it was.
abbrev pub over : List ℕ → Run (List ℕ) → Run (List ℕ)
over buf (returned b came) = returned b (came ++ drop (length came) buf)
over buf (waiting came) = waiting (came ++ drop (length came) buf)

module _ (buf : List ℕ) (small : length buf < 2 ^ 31) where
  left_lem :
      (came : List ℕ) (left : ℕ)
      → length came + left ≡ length buf
      → length (drop (length came) buf) ≡ left
  left_lem came left e = omega (arith, length-drop {0} (length came) buf)

  recv_loop-collect :
      (came : List ℕ) (left errno : ℕ) (incoming : List Incoming)
      → length came + left ≡ length buf
      → Fits left incoming
      → recv_loop (came ++ drop (length came) buf) (length came) errno incoming
        ≡ over buf (collect came left incoming)
  unfolding collect
  recv_loop-collect came zero errno incoming e fits =
      done_round came (drop (length came) buf) errno incoming
        (nil_of_length (drop (length came) buf) (left_lem came zero e))
  recv_loop-collect came (suc left) errno [] e fits =
      waiting_round came (drop (length came) buf) errno (omega (arith, left_lem came (suc left) e))
  recv_loop-collect came (suc left) errno (got [] ∷ incoming) e fits =
      closed_round came (drop (length came) buf) errno incoming
        (omega (arith, left_lem came (suc left) e))
  recv_loop-collect came (suc left) errno (got (x ∷ c) ∷ incoming) e fits =
      let more = left_lem came (suc left) e in
      let further : (came ++ x ∷ c) ++ drop (length (x ∷ c)) (drop (length came) buf)
          ≡ (came ++ x ∷ c) ++ drop (length (came ++ x ∷ c)) buf =
        rw (drop-drop (length came) (length (x ∷ c)) buf, length-append came (x ∷ c)) refl in
      got_round came (drop (length came) buf) errno (x ∷ c) incoming
        (omega (arith, length-append came (drop (length came) buf))) (omega arith) (omega arith)
      ∙ ap (λ b. recv_loop b (length (came ++ x ∷ c)) errno incoming) further
      ∙ recv_loop-collect (came ++ x ∷ c) (left - length c) errno incoming
          (omega (arith, length-append came (x ∷ c)))
          (subst (λ n. Fits n incoming) (omega arith) fits.1)
  recv_loop-collect came (suc left) errno (failed e' ∷ incoming) e fits =
      rw
        (failed_round came (drop (length came) buf) errno e' incoming
          (omega (arith, left_lem came (suc left) e)))
        (elim (Bool-cases (try_again e')) [
          | inl again ↦ rw again (recv_loop-collect came (suc left) e' incoming e fits)
          | inr lasting ↦ rw lasting refl
        ])

-- With `recv` getting no more than it was asked for, and a buffer of fewer than 2^31 bytes,
-- `recv_bytes` is `collect`: it returns or waits as that does, on every failure too, with the
-- collected bytes at the front of the buffer and the rest as it was.
pub recv_bytes-eq-collect :
    (errno : ℕ) (buf : List ℕ) (incoming : List Incoming)
    → length buf < 2 ^ 31
    → Fits (length buf) incoming
    → recv_bytes errno buf incoming ≡ over buf (collect [] (length buf) incoming)
unfolding recv_bytes
recv_bytes-eq-collect errno buf incoming small fits =
    recv_loop-collect buf small [] (length buf) errno incoming (omega arith) fits
