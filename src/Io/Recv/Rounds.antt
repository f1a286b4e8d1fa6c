-- ===== src/Io/Recv/Rounds.antt =====
-- One round of the loop of `recv_bytes`: `done` is filled already, `rest` is still to be filled.
use net_utils.Base.{
  ℕ, ◌^◌, ◌≤◌, ◌<◌, ◌≡◌, true, false, if◌then◌else◌, List, [], ◌∷◌, ◌++◌, arith, length, drop,
  length-append, take-append, drop-append, append-nil, pos,
}
use net_utils.Io.Run.{returned, waiting, try_again}
use net_utils.Io.Recv.{Incoming, got, failed, ret, written, recv_loop}

got_written :
    (done rest chunk : List ℕ)
    → written (got chunk) (length done) (done ++ rest) ≡ (done ++ chunk) ++ drop (length chunk) rest
got_written done rest chunk = rw (take-append done rest, drop-append done rest (length chunk))

-- The conversion to `int` keeps a length below 2^31.
ret_lem : (chunk : List ℕ) → length chunk < 2 ^ 31 → ret (got chunk) ≡ pos (length chunk)
ret_lem chunk h = ground arith

module _ (done rest : List ℕ) (errno : ℕ) where
  pub done_round :
      (incoming : List Incoming)
      → rest ≡ []
      → recv_loop (done ++ rest) (length done) errno incoming ≡ returned true (done ++ rest)
  unfolding recv_loop
  done_round [] h = ground (arith, length-append done rest)
  done_round (a ∷ incoming) h = ground (arith, length-append done rest)

  pub waiting_round :
      0 < length rest → recv_loop (done ++ rest) (length done) errno [] ≡ waiting (done ++ rest)
  unfolding recv_loop
  waiting_round h = ground (arith, length-append done rest)

  pub got_round :
      (chunk : List ℕ) (incoming : List Incoming)
      → length (done ++ rest) < 2 ^ 31
      → 0 < length chunk
      → length chunk ≤ length rest
      → recv_loop (done ++ rest) (length done) errno (got chunk ∷ incoming)
        ≡ recv_loop
            ((done ++ chunk) ++ drop (length chunk) rest)
            (length (done ++ chunk))
            errno
            incoming
  unfolding recv_loop
  got_round chunk incoming small more le =
      rw (length-append done chunk, ← got_written done rest chunk)
        (ground (arith, length-append done rest, ret_lem chunk))

  pub closed_round :
      (incoming : List Incoming)
      → 0 < length rest
      → recv_loop (done ++ rest) (length done) errno (got [] ∷ incoming)
        ≡ returned false (done ++ rest)
  unfolding recv_loop
  closed_round incoming more =
      ground (arith, length-append done rest, got_written done rest [], append-nil done)

  pub failed_round :
      (e : ℕ) (incoming : List Incoming)
      → 0 < length rest
      → recv_loop (done ++ rest) (length done) errno (failed e ∷ incoming) ≡ (
          if try_again e
          then recv_loop (done ++ rest) (length done) e incoming
          else returned false (done ++ rest))
  unfolding recv_loop
  failed_round e incoming more = ground (arith, length-append done rest)
