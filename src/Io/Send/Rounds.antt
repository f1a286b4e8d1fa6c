-- ===== src/Io/Send/Rounds.antt =====
-- One round of the loop of `send_bytes`, for each answer of the kernel.
use net_utils.Base.{
  ℕ, ◌+◌, ◌-◌, ◌%◌, ◌^◌, ◌≤◌, ◌<◌, ◌≡◌, true, false, List, [], ◌∷◌, ◌++◌, arith, length, take, drop,
  take_all, length-drop, append-nil,
}
use net_utils.Io.Run.{returned, waiting}
use net_utils.Io.Send.{Answer, sent, failed, send_loop}

module _ (buf : List ℕ) (total errno : ℕ) (wire : List ℕ) where
  pub done_round :
      (answers : List Answer)
      → length buf ≤ total
      → send_loop buf total errno wire answers ≡ returned true wire
  unfolding send_loop
  done_round [] h = ground arith
  done_round (a ∷ answers) h = ground arith

  pub waiting_round : total < length buf → send_loop buf total errno wire [] ≡ waiting wire
  unfolding send_loop
  waiting_round h = ground arith

  -- The slice that `send` was offered is the rest of the buffer.
  pub offered : take (length buf - total) (drop total buf) ≡ drop total buf
  offered =
      take_all (length buf - total) (drop total buf) (omega (arith, length-drop {0} total buf))

  pub sent_round :
      (n : ℕ) (answers : List Answer)
      → length buf < 2 ^ 64
      → total < length buf
      → 0 < n
      → n ≤ length buf - total
      → send_loop buf total errno wire (sent n ∷ answers)
        ≡ send_loop buf (total + n) errno (wire ++ take n (drop total buf)) answers
  unfolding send_loop
  sent_round n answers small more pos le =
      let e1 : n % 2 ^ 64 ≡ n = omega arith in
      let e2 : (total + n) % 2 ^ 64 ≡ total + n = omega arith in ground (arith, offered)

  pub closed_round :
      (answers : List Answer)
      → total < length buf
      → send_loop buf total errno wire (sent 0 ∷ answers) ≡ returned false wire
  unfolding send_loop
  closed_round answers more = ground (arith, append-nil wire)

  -- A failure is not seen: -1 is the largest `size_t`, and the sum steps back by one byte.
  pub failed_round :
      (e : ℕ) (answers : List Answer)
      → total < length buf
      → send_loop buf total errno wire (failed e ∷ answers)
        ≡ send_loop buf ((total + (2 ^ 64 - 1)) % 2 ^ 64) e wire answers
  unfolding send_loop
  failed_round e answers more = ground (arith, append-nil wire)
