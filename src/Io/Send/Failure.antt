-- ===== src/Io/Send/Failure.antt =====
-- `send_bytes` when `send` fails: -1 is stored in a `size_t`, so the test for it never holds.
use net_utils.Base.{
  ℕ, ◌+◌, ◌-◌, ◌%◌, ◌^◌, ◌<◌, ◌≡◌, ◌∙◌, refl, Bool, true, false, if◌then◌else◌, none, List, [], ◌∷◌,
  ◌++◌, arith, length, take, drop, take_all, length-drop,
}
use net_utils.Io.Run.{returned}
use net_utils.Io.Send.{Answer, sent, failed, send_bytes}
use net_utils.Io.Send.Traced.{dump_fits, traced_loop, traced_send_bytes, failed_dump, sent_dump}
use net_utils.Io.Send.Rounds.{done_round, sent_round, failed_round}

-- If the first call of `send` fails, with whatever errno, `send_bytes` returns true at once and
-- nothing of the buffer has gone out (the buffer is not empty, and shorter than 2^64 - 1).
pub send_bytes-failed :
    (errno e : ℕ) (buf : List ℕ) (answers : List Answer)
    → 0 < length buf
    → length buf < 2 ^ 64 - 1
    → send_bytes errno buf (failed e ∷ answers) ≡ returned true []
unfolding send_bytes
send_bytes-failed errno e buf answers pos small = rw (
  failed_round buf 0 errno [] e answers pos,
  done_round buf (2 ^ 64 - 1) e [] answers (omega arith),
)

-- The loop without the dumps, when a call fails after k bytes.
resends :
    (errno e k : ℕ) (buf : List ℕ) (answers : List Answer)
    → 0 < k
    → k < length buf
    → length buf < 2 ^ 64 - 1
    → send_bytes errno buf (sent k ∷ failed e ∷ sent (length buf - (k - 1)) ∷ answers)
      ≡ returned true (take k buf ++ drop (k - 1) buf)
unfolding send_bytes
resends errno e k buf answers pos more small = rw (
  sent_round buf 0 errno [] k _ (omega arith) (omega arith) pos (omega arith),
  failed_round buf (0 + k) errno _ e _ (omega arith),
  back,
  sent_round buf (k - 1) e _ (length buf - (k - 1)) answers (omega arith) (omega arith)
      (omega arith) (omega arith),
  done_round buf (k - 1 + (length buf - (k - 1))) e _ answers (omega arith),
  take_all (length buf - (k - 1)) (drop (k - 1) buf) (omega (arith, length-drop {0} (k - 1) buf)),
)
  where
    back : (0 + k + (2 ^ 64 - 1)) % 2 ^ 64 ≡ k - 1
    back = omega arith

-- With the dumps, the one after the failure reads outside the buffer.
overreads :
    (errno e k : ℕ) (buf : List ℕ) (answers : List Answer)
    → 0 < k
    → k < length buf
    → length buf < 2 ^ 64 - 1
    → traced_send_bytes errno buf (sent k ∷ failed e ∷ answers) ≡ none
unfolding traced_send_bytes
overreads errno e k buf answers pos more small =
    sent_dump buf 0 errno [] k (failed e ∷ answers) (omega arith) (omega arith) pos (omega arith)
    ∙ by_fit (dump_fits k (length buf))
  where
    by_fit :
        (b : Bool)
        → (if b
            then traced_loop buf
                (0 + k)
                errno
                ([] ++ take k (take (length buf - 0) (drop 0 buf)))
                (failed e ∷ answers)
            else none)
          ≡ none
    by_fit true = failed_dump buf (0 + k) errno _ e answers (omega arith) small
    by_fit false = refl

-- If a call fails after k bytes have gone out, the failure is not seen (k is positive and less than
-- the length of the buffer, which is less than 2^64 - 1). With the TRACE level of the log off, the loop
-- steps back by one byte: when the next call takes all that it is offered, `send_bytes` returns true
-- and byte k - 1 has gone out twice. With the level on, `send_bytes` dumps the 2^64 - 1 bytes that it
-- takes the failure for, and so reads outside the buffer, whatever the next calls do.
pub send_bytes-resends :
    (errno e k : ℕ) (buf : List ℕ) (answers : List Answer)
    → 0 < k
    → k < length buf
    → length buf < 2 ^ 64 - 1
    → (send_bytes errno buf (sent k ∷ failed e ∷ sent (length buf - (k - 1)) ∷ answers)
        ≡ returned true (take k buf ++ drop (k - 1) buf))
      × (traced_send_bytes errno buf (sent k ∷ failed e ∷ answers) ≡ none)
send_bytes-resends errno e k buf answers pos more small =
    (resends errno e k buf answers pos more small, overreads errno e k buf answers pos more small)
