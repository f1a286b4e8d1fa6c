-- ===== src/Handle/Echo/Tests.antt =====
-- Runs of an IPV6ThreadsClientHandle that echo.
use net_utils.Base.{length, ◌+◌, ◌*◌, ◌≤◌, ◌≡◌, refl, List, [], ◌∷◌, pos, arith}
use net_utils.Io.Send.{sent}
use net_utils.Io.Recv.{got}
use net_utils.Handle
use net_utils.Handle.{
  ipv6_handle, receiving, sleeping, testing, until_zero, Handle, new_handle, Turn, mains, reads,
  writes, step, run, read_at, write_at, main_at,
}
use net_utils.Handle.Echo.{Honest, Clean}
use net_utils.Handle.Draining.{drain}

abbrev start6 : Handle
start6 = new_handle ipv6_handle (pos 4)

-- One byte goes around, and a second one is in the queue.
abbrev one_byte : List Turn
one_byte =
    mains
    ∷ mains
    ∷ writes []
    ∷ reads (got (7 ∷ []))
    ∷ reads (got [])
    ∷ reads (got [])
    ∷ writes []
    ∷ writes (sent 1 ∷ [])
    ∷ []

abbrev second_byte : List Turn
second_byte = reads (got (9 ∷ [])) ∷ reads (got []) ∷ []

-- Two bytes are in the queue when the sending thread comes to it.
abbrev two_bytes : List Turn
two_bytes =
    mains
    ∷ mains
    ∷ reads (got (7 ∷ []))
    ∷ reads (got [])
    ∷ reads (got [])
    ∷ reads (got (9 ∷ []))
    ∷ reads (got [])
    ∷ reads (got [])
    ∷ []

two_bytes-Honest : Honest two_bytes start6
unfolding run step read_at write_at main_at until_zero
two_bytes-Honest = (tt, (tt, (tt, (tt, (tt, (tt, (tt, (tt, tt))))))))

two_bytes-Clean : Clean ipv6_handle two_bytes start6
unfolding run step read_at write_at main_at until_zero
two_bytes-Clean = (
  tt,
  (
    tt,
    (
      (((λ e. omega arith), tt), omega arith),
      (
        (tt, omega arith),
        (
          (tt, omega arith),
          ((((λ e. omega arith), tt), omega arith), ((tt, omega arith), ((tt, omega arith), tt))),
        ),
      ),
    ),
  ),
)

two_bytes_state :
    ((run two_bytes start6).client_fd ≡ pos 4)
    × ((run two_bytes start6).writer ≡ testing)
    × ((run two_bytes start6).reader ≡ receiving)
    × ((run two_bytes start6).queue ≡ (7 ∷ []) ∷ (9 ∷ []) ∷ [])
unfolding run step read_at write_at main_at until_zero
two_bytes_state = (refl, refl, refl, refl)

run-drains_example :
    (length (drain ipv6_handle (run two_bytes start6).queue)
      ≤ 3 * length (run two_bytes start6).queue + 1)
    × (run (drain ipv6_handle (run two_bytes start6).queue) (run two_bytes start6)
        ≡ record (run two_bytes start6) {
          queue = [];
          writer = sleeping;
          wire = (run two_bytes start6).received;
        })
run-drains_example =
    Handle.Draining.run-drains ipv6_handle (pos 4) 4 two_bytes two_bytes-Honest two_bytes-Clean
      two_bytes_state.0 two_bytes_state.1 two_bytes_state.2
      (rw two_bytes_state.3 (omega arith, (omega arith, tt)))
