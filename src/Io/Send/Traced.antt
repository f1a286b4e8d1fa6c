-- ===== src/Io/Send/Traced.antt =====
-- src/NetUtils/IOHelper.cpp, `IOHelper::send_bytes` with the lines that dump what was sent when the
-- TRACE level of the log is on: `hexdump` reads as many bytes of the buffer as `send` has returned.
use net_utils.Base.{
  ℕ, zero, suc, ◌+◌, ◌-◌, ◌%◌, ◌^◌, ◌≤◌, ◌<◌, ◌≡◌, Bool, true, false, ◌&&◌, List, [], ◌∷◌, ◌++◌,
  Option, none, some, to_unsigned, ltb, ◌==◌, if◌then◌else◌, length, take, drop, arith,
}
use net_utils.Io.Run.{Run, returned, waiting, try_again}
use net_utils.Io.Send.{Answer, sent, failed, ret, errno_after, taken, send_loop, send_bytes}
use net_utils.Io.Send.Rounds.{offered, sent_round}
use net_utils.Io.Send.Delivery.{Counts}

-- Does `hexdump(data, sb)` stay inside a buffer of len bytes, and its `int` index in its range?
abbrev pub dump_fits : ℕ → ℕ → Bool
dump_fits sb len = ltb sb (len + 1) && ltb sb (2 ^ 31)

-- `none`: a dump has read outside the buffer, or its index has overflowed.
unfoldable pub traced_loop : List ℕ → ℕ → ℕ → List ℕ → List Answer → Option (Run (List ℕ))
traced_loop buf total_send errno wire [] =
    if ltb total_send (length buf) then some (waiting wire) else some (returned true wire)
traced_loop buf total_send errno wire (a ∷ answers) =
    let sb = to_unsigned 64 (ret a) in
    let errno' = errno_after a errno in
    let wire' = wire ++ taken a (take (length buf - total_send) (drop total_send buf)) in
    let again = traced_loop buf total_send errno' wire' answers in
    let next = traced_loop buf ((total_send + sb) % 2 ^ 64) errno' wire' answers in
    if ltb total_send (length buf)
    then (if ltb sb 0
        then (if try_again errno' then again else some (returned false wire'))
        else if sb == 0
        then some (returned false wire')
        else if dump_fits sb (length buf)
        then next
        else none)
    else some (returned true wire)

unfoldable pub traced_send_bytes : ℕ → List ℕ → List Answer → Option (Run (List ℕ))
traced_send_bytes errno buf answers = traced_loop buf 0 errno [] answers

module _ (buf : List ℕ) (total errno : ℕ) (wire : List ℕ) where
  -- The dump after a failure is of 2^64 - 1 bytes.
  pub failed_dump :
      (e : ℕ) (answers : List Answer)
      → total < length buf
      → length buf < 2 ^ 64 - 1
      → traced_loop buf total errno wire (failed e ∷ answers) ≡ none
  unfolding traced_loop
  failed_dump e answers more small = ground arith

  -- After a call that has taken n bytes, the loop goes on as it does with no dump, if n fits.
  pub sent_dump :
      (n : ℕ) (answers : List Answer)
      → length buf < 2 ^ 64
      → total < length buf
      → 0 < n
      → n ≤ length buf - total
      → traced_loop buf total errno wire (sent n ∷ answers) ≡ (
          if dump_fits n (length buf)
          then traced_loop buf
              (total + n)
              errno
              (wire ++ take n (take (length buf - total) (drop total buf)))
              answers
          else none)
  unfolding traced_loop
  sent_dump n answers small more pos le =
      let e1 : n % 2 ^ 64 ≡ n = omega arith in
      let e2 : (total + n) % 2 ^ 64 ≡ total + n = omega arith in ground arith

  pub closed_dump :
      (answers : List Answer)
      → total < length buf
      → traced_loop buf total errno wire (sent 0 ∷ answers)
        ≡ some (send_loop buf total errno wire (sent 0 ∷ answers))
  unfolding traced_loop send_loop
  closed_dump answers more = ground arith

  pub done_dump :
      (answers : List Answer)
      → length buf ≤ total
      → traced_loop buf total errno wire answers ≡ some (send_loop buf total errno wire answers)
  unfolding traced_loop send_loop
  done_dump [] h = ground arith
  done_dump (a ∷ answers) h = ground arith

  pub waiting_dump :
      total < length buf
      → traced_loop buf total errno wire [] ≡ some (send_loop buf total errno wire [])
  unfolding traced_loop send_loop
  waiting_dump h = ground arith

module _ (buf : List ℕ) (small : length buf < 2 ^ 31) where
  traced_loop-eq :
      (left total errno : ℕ) (wire : List ℕ) (answers : List Answer)
      → total + left ≡ length buf
      → Counts left answers
      → traced_loop buf total errno wire answers ≡ some (send_loop buf total errno wire answers)
  traced_loop-eq zero total errno wire answers e c =
      done_dump buf total errno wire answers (omega arith)
  traced_loop-eq (suc left) total errno wire [] e c =
      waiting_dump buf total errno wire (omega arith)
  traced_loop-eq (suc left) total errno wire (failed e' ∷ answers) e c = absurd c
  traced_loop-eq (suc left) total errno wire (sent zero ∷ answers) e c =
      closed_dump buf total errno wire answers (omega arith)
  traced_loop-eq (suc left) total errno wire (sent (suc n) ∷ answers) e c =
      let fits : dump_fits (suc n) (length buf) ≡ true = ground arith in
      rw
        (
          sent_dump buf total errno wire (suc n) answers (omega arith) (omega arith) (omega arith)
              (omega arith),
          fits,
          offered buf total errno wire,
          sent_round buf total errno wire (suc n) answers (omega arith) (omega arith) (omega arith)
              (omega arith),
        )
        (traced_loop-eq (suc left - suc n) (total + suc n) errno
          (wire ++ take (suc n) (drop total buf)) answers (omega arith) c.1)

  -- With the TRACE level on, `send_bytes` does what it does with the level off, and each dump stays
  -- inside the buffer, for any answers of the kernel in which no `send` fails or takes more than it is
  -- offered (the buffer is shorter than 2^31).
  pub traced_send_bytes-eq-send_bytes :
      (errno : ℕ) (answers : List Answer)
      → Counts (length buf) answers
      → traced_send_bytes errno buf answers ≡ some (send_bytes errno buf answers)
  unfolding traced_send_bytes send_bytes
  traced_send_bytes-eq-send_bytes errno answers c =
      traced_loop-eq (length buf) 0 errno [] answers (omega arith) c
