-- ===== src/Io/Send/Delivery.antt =====
-- `send_bytes` while `send` does not fail: what has gone out, and that it returns.
use net_utils.Base.{
  ℕ, zero, suc, ◌+◌, ◌-◌, ◌^◌, ◌≤◌, ◌<◌, ◌≡◌, refl, ◌∙◌, true, false, List, [], ◌∷◌, arith, length,
  take, take_all, take-take-drop,
}
use net_utils.Io.Run.{Run, returned, waiting}
use net_utils.Io.Send.{Answer, sent, failed, send_loop, send_bytes}
use net_utils.Io.Send.Rounds.{waiting_round, done_round, closed_round, sent_round}

-- While `left` bytes are still to go, `send` does not fail and takes no more than it was offered.
abbrev pub Counts : ℕ → List Answer → Type 0
Counts zero answers = Unit
Counts (suc left) [] = Unit
Counts (suc left) (sent n ∷ answers) = (n ≤ suc left) × Counts (suc left - n) answers
Counts (suc left) (failed errno ∷ answers) = ⊥

-- While bytes are still to go, each call takes at least one.
abbrev pub Progresses : ℕ → List Answer → Type 0
Progresses zero answers = Unit
Progresses (suc left) [] = Unit
Progresses (suc left) (sent n ∷ answers) = (0 < n) × Progresses (suc left - n) answers
Progresses (suc left) (failed errno ∷ answers) = ⊥

-- `true`: the whole buffer went out, byte for byte. Otherwise a proper prefix of it did.
abbrev pub Delivers : List ℕ → Run (List ℕ) → Type 0
Delivers buf (returned true wire) = wire ≡ buf
Delivers buf (returned false wire) = (k : ℕ) × (k < length buf) × (wire ≡ take k buf)
Delivers buf (waiting wire) = (k : ℕ) × (k < length buf) × (wire ≡ take k buf)

module _ (buf : List ℕ) (small : length buf < 2 ^ 64) where
  send_loop_end :
      (total errno : ℕ) (answers : List Answer)
      → total + 0 ≡ length buf
      → send_loop buf total errno (take total buf) answers ≡ returned true buf
  send_loop_end total errno answers e =
      rw (done_round buf total errno _ answers (omega arith), take_all total buf (omega arith))

  send_loop_more :
      (left n total errno : ℕ) (answers : List Answer)
      → total + suc left ≡ length buf
      → suc n ≤ suc left
      → send_loop buf total errno (take total buf) (sent (suc n) ∷ answers)
        ≡ send_loop buf (total + suc n) errno (take (total + suc n) buf) answers
  send_loop_more left n total errno answers e le = rw (
    sent_round buf total errno _ (suc n) answers small (omega arith) (omega arith) (omega arith),
    take-take-drop total (suc n) (total + suc n) buf refl,
  )

  send_loop-Delivers :
      (left total errno : ℕ) (answers : List Answer)
      → total + left ≡ length buf
      → Counts left answers
      → Delivers buf (send_loop buf total errno (take total buf) answers)
  send_loop-Delivers zero total errno answers e c = rw (send_loop_end total errno answers e) refl
  send_loop-Delivers (suc left) total errno [] e c =
      rw (waiting_round buf total errno _ (omega arith)) (total, omega arith, refl)
  send_loop-Delivers (suc left) total errno (sent zero ∷ answers) e c =
      rw (closed_round buf total errno _ answers (omega arith)) (total, omega arith, refl)
  send_loop-Delivers (suc left) total errno (sent (suc n) ∷ answers) e c =
      rw (send_loop_more left n total errno answers e c.0)
        (send_loop-Delivers (suc left - suc n) (total + suc n) errno answers (omega arith) c.1)
  send_loop-Delivers (suc left) total errno (failed errno' ∷ answers) e c = absurd c

  send_loop-eq-returned :
      (left total errno : ℕ) (answers : List Answer)
      → total + left ≡ length buf
      → Counts left answers
      → Progresses left answers
      → left ≤ length answers
      → send_loop buf total errno (take total buf) answers ≡ returned true buf
  send_loop-eq-returned zero total errno answers e c p enough = send_loop_end total errno answers e
  send_loop-eq-returned (suc left) total errno [] e c p enough = absurd (omega arith)
  send_loop-eq-returned (suc left) total errno (sent zero ∷ answers) e c p enough =
      absurd (omega arith)
  send_loop-eq-returned (suc left) total errno (sent (suc n) ∷ answers) e c p enough =
      rw (send_loop_more left n total errno answers e c.0) (
        send_loop-eq-returned (suc left - suc n) (total + suc n) errno answers (omega arith) c.1 p.1
          (omega arith))
  send_loop-eq-returned (suc left) total errno (failed errno' ∷ answers) e c p enough = absurd c

-- A call that takes the whole buffer at once.
pub send_bytes-whole :
    (errno : ℕ) (buf : List ℕ)
    → length buf < 2 ^ 64
    → send_bytes errno buf (sent (length buf) ∷ []) ≡ returned true buf
unfolding send_bytes
send_bytes-whole errno [] small = send_loop_end [] small 0 errno (sent 0 ∷ []) (omega arith)
send_bytes-whole errno (b ∷ buf) small =
    send_loop_more (b ∷ buf) small (length buf) (length buf) 0 errno [] (omega arith) (omega arith)
    ∙ send_loop_end (b ∷ buf) small (0 + suc (length buf)) errno [] (omega arith)

-- The loop has not broken off.
abbrev pub Unbroken : Run (List ℕ) → Type 0
Unbroken (returned false wire) = ⊥
Unbroken _ = Unit

module _ (buf : List ℕ) (small : length buf < 2 ^ 64) where
  send_loop-Unbroken :
      (left total errno : ℕ) (answers : List Answer)
      → total + left ≡ length buf
      → Counts left answers
      → Progresses left answers
      → Unbroken (send_loop buf total errno (take total buf) answers)
  send_loop-Unbroken zero total errno answers e c p =
      rw (send_loop_end buf small total errno answers e) tt
  send_loop-Unbroken (suc left) total errno [] e c p =
      rw (waiting_round buf total errno _ (omega arith)) tt
  send_loop-Unbroken (suc left) total errno (sent zero ∷ answers) e c p = absurd (omega arith)
  send_loop-Unbroken (suc left) total errno (sent (suc n) ∷ answers) e c p =
      rw (send_loop_more buf small left n total errno answers e c.0)
        (send_loop-Unbroken (suc left - suc n) (total + suc n) errno answers (omega arith) c.1 p.1)
  send_loop-Unbroken (suc left) total errno (failed errno' ∷ answers) e c p = absurd c

pub send_bytes-Unbroken :
    (errno : ℕ) (buf : List ℕ) (answers : List Answer)
    → length buf < 2 ^ 64
    → Counts (length buf) answers
    → Progresses (length buf) answers
    → Unbroken (send_bytes errno buf answers)
unfolding send_bytes
send_bytes-Unbroken errno buf answers small c p =
    send_loop-Unbroken buf small (length buf) 0 errno answers (omega arith) c p

-- As long as `send` does not fail and takes no more than it was offered, and the buffer is shorter
-- than 2^64 bytes, what `send_bytes` has put on the wire is the whole buffer if it returned true, and
-- a proper prefix of the buffer if it returned false or still waits.
pub send_bytes-Delivers :
    (errno : ℕ) (buf : List ℕ) (answers : List Answer)
    → length buf < 2 ^ 64
    → Counts (length buf) answers
    → Delivers buf (send_bytes errno buf answers)
unfolding send_bytes
send_bytes-Delivers errno buf answers small c =
    send_loop-Delivers buf small (length buf) 0 errno answers (omega arith) c

-- If `send` does not fail, and takes at least one byte and no more than it was offered in each call,
-- `send_bytes` returns true after at most one call for each byte, with the whole buffer on the wire
-- (the buffer is shorter than 2^64).
pub send_bytes-eq-returned :
    (errno : ℕ) (buf : List ℕ) (answers : List Answer)
    → length buf < 2 ^ 64
    → Counts (length buf) answers
    → Progresses (length buf) answers
    → length buf ≤ length answers
    → send_bytes errno buf answers ≡ returned true buf
unfolding send_bytes
send_bytes-eq-returned errno buf answers small c p enough =
    send_loop-eq-returned buf small (length buf) 0 errno answers (omega arith) c p enough
