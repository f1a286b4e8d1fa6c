-- ===== src/Io/Recv/Delivery.antt =====
-- What `recv_bytes` leaves in the buffer, and that it returns once the peer has sent enough.
use net_utils.Base.{
  ℕ, zero, suc, ◌-◌, ◌^◌, ◌≤◌, ◌<◌, ◌≡◌, refl, subst, true, false, if◌then◌else◌, List, [], ◌∷◌,
  ◌++◌, arith, length, drop, length-append, length-drop, drop-drop, append_assoc, append-nil,
  Bool-cases, inl, inr, ap, ◌∙◌, dec_lt, nil_of_length,
}
use net_utils.Io.Run.{Run, returned, waiting, try_again}
use net_utils.Io.Recv.{Incoming, got, failed, recv_loop, recv_bytes}
use net_utils.Io.Recv.Rounds.{done_round, waiting_round, got_round, closed_round, failed_round}

-- `recv` gets no more than it was asked for: `left` bytes of the buffer are still to be filled.
abbrev pub Fits : ℕ → List Incoming → Type 0
Fits zero incoming = Unit
Fits (suc left) [] = Unit
Fits (suc left) (got chunk ∷ incoming) =
    (length chunk ≤ suc left) × Fits (suc left - length chunk) incoming
Fits (suc left) (failed e ∷ incoming) = Fits (suc left) incoming

-- The bytes that arrive up to the end of the connection, the first lasting failure, or the
-- `left`-th byte.
abbrev pub stream : ℕ → List Incoming → List ℕ
stream zero incoming = []
stream (suc left) [] = []
stream (suc left) (got [] ∷ incoming) = []
stream (suc left) (got (x ∷ c) ∷ incoming) = (x ∷ c) ++ stream (left - length c) incoming
stream (suc left) (failed e ∷ incoming) = if try_again e then stream (suc left) incoming else []

-- Of a buffer `front ++ rest` the part `rest` was to be filled, and the bytes `s` came. `true`: they
-- fill it. Otherwise they are too few, stand at its beginning, and the bytes behind are untouched.
abbrev pub Receives : List ℕ → List ℕ → List ℕ → Run (List ℕ) → Type 0
Receives front rest s (returned true buf) = (length s ≡ length rest) × (buf ≡ front ++ s)
Receives front rest s (returned false buf) =
    (length s < length rest) × (buf ≡ (front ++ s) ++ drop (length s) rest)
Receives front rest s (waiting buf) =
    (length s < length rest) × (buf ≡ (front ++ s) ++ drop (length s) rest)

-- Bytes that came in a later call follow those of the earlier ones.
Receives-append :
    (front rest c s : List ℕ) (r : Run (List ℕ))
    → length c ≤ length rest
    → Receives (front ++ c) (drop (length c) rest) s r
    → Receives front rest (c ++ s) r
Receives-append front rest c s (returned true buf) le (fill, e) =
    (omega (arith, length-append c s, length-drop {0} (length c) rest), rw (e, append_assoc))
Receives-append front rest c s (returned false buf) le (few, e) = (
  omega (arith, length-append c s, length-drop {0} (length c) rest),
  rw (e, drop-drop (length c) (length s) rest, length-append c s, append_assoc front c s),
)
Receives-append front rest c s (waiting buf) le (few, e) = (
  omega (arith, length-append c s, length-drop {0} (length c) rest),
  rw (e, drop-drop (length c) (length s) rest, length-append c s, append_assoc front c s),
)

-- The bound on the buffer is kept from round to round.
kept :
    (front rest c : List ℕ) {n : ℕ}
    → length (front ++ rest) < n
    → length c ≤ length rest
    → length ((front ++ c) ++ drop (length c) rest) < n
kept front rest c small le = omega (
  arith,
  length-append front rest,
  length-append (front ++ c) (drop (length c) rest),
  length-append front c,
  length-drop {0} (length c) rest,
)

recv_loop-Receives :
    (front rest : List ℕ) (errno : ℕ) (incoming : List Incoming)
    → length (front ++ rest) < 2 ^ 31
    → Fits (length rest) incoming
    → Receives front rest
        (stream (length rest) incoming)
        (recv_loop (front ++ rest) (length front) errno incoming)
recv_loop-Receives front [] errno incoming small fits =
    rw (done_round front [] errno incoming refl) (refl, refl)
recv_loop-Receives front (r ∷ rest) errno [] small fits =
    rw (waiting_round front (r ∷ rest) errno (omega arith), append-nil front) (omega arith, refl)
recv_loop-Receives front (r ∷ rest) errno (got [] ∷ incoming) small fits =
    rw (closed_round front (r ∷ rest) errno incoming (omega arith), append-nil front)
      (omega arith, refl)
recv_loop-Receives front (r ∷ rest) errno (got (x ∷ c) ∷ incoming) small fits =
    let tail_length : length (drop (length c) rest) ≡ length rest - length c =
      length-drop (length c) rest in
    let fits' : Fits (length (drop (length c) rest)) incoming =
      subst (λ n. Fits n incoming) (omega arith) fits.1 in
    rw (got_round front (r ∷ rest) errno (x ∷ c) incoming small (omega arith) fits.0) (
      Receives-append front (r ∷ rest) (x ∷ c) _ _ fits.0 (
        subst
          (λ n. Receives (front ++ x ∷ c) (drop (length c) rest) (stream n incoming) (
            recv_loop ((front ++ x ∷ c) ++ drop (length c) rest) (length (front ++ x ∷ c)) errno
              incoming))
          tail_length
          (recv_loop-Receives (front ++ x ∷ c) (drop (length c) rest) errno incoming
            (kept front (r ∷ rest) (x ∷ c) small fits.0) fits')))
recv_loop-Receives front (r ∷ rest) errno (failed e ∷ incoming) small fits =
    rw (failed_round front (r ∷ rest) errno e incoming (omega arith))
      (elim (Bool-cases (try_again e)) [
        | inl again ↦ rw again (recv_loop-Receives front (r ∷ rest) e incoming small fits)
        | inr lasting ↦ rw (lasting, append-nil front) (omega arith, refl)
      ])

-- With `recv` getting no more than it was asked for, and a buffer of fewer than 2^31 bytes:
-- `recv_bytes` returns true exactly with the buffer full of the bytes that came, in order. If it
-- returns false or waits, too few came; they stand at the front, and the rest is as it was.
pub recv_bytes-Receives :
    (errno : ℕ) (buf : List ℕ) (incoming : List Incoming)
    → length buf < 2 ^ 31
    → Fits (length buf) incoming
    → Receives [] buf (stream (length buf) incoming) (recv_bytes errno buf incoming)
unfolding recv_bytes
recv_bytes-Receives errno buf incoming small fits =
    recv_loop-Receives [] buf errno incoming small fits

-- The peer's bytes come in pieces of any size, with "try again" failures between them.
pub data Feeds : List Incoming → List ℕ → Type 0 where
  enough : (incoming : List Incoming) → Feeds incoming []
  piece :
      (x : ℕ) (c bytes : List ℕ) (incoming : List Incoming)
      → Feeds incoming bytes
      → Feeds (got (x ∷ c) ∷ incoming) (x ∷ c ++ bytes)
  retry :
      (e : ℕ) (bytes : List ℕ) (incoming : List Incoming)
      → try_again e ≡ true
      → Feeds incoming bytes
      → Feeds (failed e ∷ incoming) bytes

recv_loop-eq-returned :
    (incoming : List Incoming) (bytes : List ℕ)
    → Feeds incoming bytes
    → (front rest : List ℕ) (errno : ℕ) → length (front ++ rest) < 2 ^ 31
    → length bytes ≡ length rest
    → recv_loop (front ++ rest) (length front) errno incoming ≡ returned true (front ++ bytes)
recv_loop-eq-returned _ _ (enough incoming) front rest errno small e =
    let filled : rest ≡ [] = nil_of_length rest (omega arith) in
    rw (done_round front rest errno incoming filled, filled)
recv_loop-eq-returned _ _ (piece x c bytes incoming f) front rest errno small e =
    let le : length (x ∷ c) ≤ length rest = omega (arith, length-append c bytes) in
    rw (got_round front rest errno (x ∷ c) incoming small (omega arith) le) (
      recv_loop-eq-returned incoming bytes f (front ++ x ∷ c) (drop (length (x ∷ c)) rest) errno
        (kept front rest (x ∷ c) small le)
        (omega (arith, length-append c bytes, length-drop {0} (length (x ∷ c)) rest))
      ∙ ap (returned true) (append_assoc front (x ∷ c) bytes))
recv_loop-eq-returned _ _ (retry e' bytes incoming again f) front rest errno small e =
    elim (dec_lt 0 (length rest)) [
      | yes more ↦
          rw (failed_round front rest errno e' incoming more, again)
            (recv_loop-eq-returned incoming bytes f front rest e' small e)
      | no full ↦
          let filled : rest ≡ [] = nil_of_length rest (omega arith) in
          let nothing : bytes ≡ [] = nil_of_length bytes (omega arith) in
          rw (done_round front rest errno (failed e' ∷ incoming) filled, filled, nothing)
    ]

-- If the peer's bytes, in pieces of any size and with retries between them, are as many as the
-- buffer has room for (fewer than 2^31), `recv_bytes` returns true and the buffer holds them.
pub recv_bytes-eq-returned :
    (errno : ℕ) (buf bytes : List ℕ) (incoming : List Incoming)
    → length buf < 2 ^ 31
    → length bytes ≡ length buf
    → Feeds incoming bytes
    → recv_bytes errno buf incoming ≡ returned true bytes
unfolding recv_bytes
recv_bytes-eq-returned errno buf bytes incoming small e f =
    recv_loop-eq-returned incoming bytes f [] buf errno small e
