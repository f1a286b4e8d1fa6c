-- ===== src/Io/Send.antt =====
-- src/NetUtils/IOHelper.cpp, `IOHelper::send_bytes`. A run is over the list of the kernel's answers
-- to `send`; the bytes that the kernel took stand in `wire`, in the order in which it took them.
mod Rounds
pub mod Delivery
pub mod Traced
pub mod Failure
mod Tests
use net_utils.Base.{
  ℕ, ◌+◌, ◌-◌, ◌%◌, ◌^◌, Bool, true, false, List, [], ◌∷◌, ◌++◌, ℤ, pos, negsuc, to_unsigned, ltb,
  ◌==◌, if◌then◌else◌, length, take, drop,
}
use net_utils.Io.Run.{Run, returned, waiting, try_again}

-- `send` takes a number of bytes, or fails with an errno.
pub data Answer : Type 0 where
  sent : ℕ → Answer
  failed : ℕ → Answer

-- The `ssize_t` that `send` returns.
abbrev pub ret : Answer → ℤ
ret (sent n) = pos n
ret (failed errno) = negsuc 0

-- errno after the call: a call that does not fail leaves it as it was.
abbrev pub errno_after : Answer → ℕ → ℕ
errno_after (sent n) errno = errno
errno_after (failed e) errno = e

-- The bytes that the kernel has taken from the buffer that it was given.
abbrev pub taken : Answer → List ℕ → List ℕ
taken (sent n) buf = take n buf
taken (failed errno) buf = []

-- The loop of `send_bytes`, with the TRACE level of the log off (`traced_loop` of Io/Send/Traced has
-- the dumps that it makes when the level is on). `sb` is a `size_t`, so `sb < 0` is the test written in the source and
-- is made of an unsigned number.
unfoldable pub send_loop : List ℕ → ℕ → ℕ → List ℕ → List Answer → Run (List ℕ)
send_loop buf total_send errno wire [] =
    if ltb total_send (length buf) then waiting wire else returned true wire
send_loop buf total_send errno wire (a ∷ answers) =
    let sb = to_unsigned 64 (ret a) in
    let errno' = errno_after a errno in
    let wire' = wire ++ taken a (take (length buf - total_send) (drop total_send buf)) in
    let again = send_loop buf total_send errno' wire' answers in
    let next = send_loop buf ((total_send + sb) % 2 ^ 64) errno' wire' answers in
    if ltb total_send (length buf)
    then (if ltb sb 0
        then (if try_again errno' then again else returned false wire')
        else if sb == 0
        then returned false wire'
        else next)
    else returned true wire

-- `send_bytes(sockfd, buf, len, flags)` where `len` is the length of `buf`.
unfoldable pub send_bytes : ℕ → List ℕ → List Answer → Run (List ℕ)
send_bytes errno buf answers = send_loop buf 0 errno [] answers
