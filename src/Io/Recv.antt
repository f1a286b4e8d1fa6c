-- ===== src/Io/Recv.antt =====
-- src/NetUtils/IOHelper.cpp, `IOHelper::recv_bytes`. A run is over the list of what `recv` meets;
-- the caller's buffer is a list of bytes that the kernel writes into.
mod Rounds
pub mod Delivery
pub mod Reference
mod Tests
use net_utils.Base.{
  ℕ, ◌+◌, ◌-◌, ◌%◌, ◌^◌, Bool, true, false, List, [], ◌∷◌, ◌++◌, ℤ, pos, negsuc, to_unsigned,
  to_int32, is_neg, ltb, ◌==◌, if◌then◌else◌, length, take, drop,
}
use net_utils.Io.Run.{Run, returned, waiting, try_again}

-- `recv` gets bytes (none when the peer has closed the connection), or fails with an errno.
pub data Incoming : Type 0 where
  got : List ℕ → Incoming
  failed : ℕ → Incoming

-- The `ssize_t` that `recv` returns, stored in an `int`.
abbrev pub ret : Incoming → ℤ
ret (got chunk) = to_int32 (length chunk)
ret (failed errno) = negsuc 0

abbrev pub errno_after : Incoming → ℕ → ℕ
errno_after (got chunk) errno = errno
errno_after (failed e) errno = e

-- The buffer after the kernel has written at offset `at_byte`.
abbrev pub written : Incoming → ℕ → List ℕ → List ℕ
written (got chunk) at_byte buf = take at_byte buf ++ chunk ++ drop (at_byte + length chunk) buf
written (failed errno) at_byte buf = buf

-- `rb == 0`
abbrev pub is_zero : ℤ → Bool
is_zero (pos n) = n == 0
is_zero (negsuc n) = false

-- The loop of `recv_bytes`; the buffer's length is `len`.
pub recv_loop : List ℕ → ℕ → ℕ → List Incoming → Run (List ℕ)
recv_loop buf total_rb errno [] =
    if ltb total_rb (length buf) then waiting buf else returned true buf
recv_loop buf total_rb errno (a ∷ incoming) =
    let rb = ret a in
    let errno' = errno_after a errno in
    let buf' = written a total_rb buf in
    let again = recv_loop buf' total_rb errno' incoming in
    let next = recv_loop buf' ((total_rb + to_unsigned 64 rb) % 2 ^ 64) errno' incoming in
    if ltb total_rb (length buf)
    then (if is_neg rb
        then (if try_again errno' then again else returned false buf')
        else if is_zero rb
        then returned false buf'
        else next)
    else returned true buf

-- `recv_bytes(sockfd, buf, len, flags)` where `len` is the length of `buf`.
pub recv_bytes : ℕ → List ℕ → List Incoming → Run (List ℕ)
recv_bytes errno buf incoming = recv_loop buf 0 errno incoming
