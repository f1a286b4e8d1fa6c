-- ===== src/Handle/Echo/Delivery.antt =====
-- What the client of a handle gets back.
use net_utils.Base.{ℕ, ◌≡◌, List, [], ◌++◌, append-nil, ℤ, arith}
use net_utils.Handle.{HandleClass, ipv4_handle, receiving, sleeping, Handle, new_handle, Turn, run}
use net_utils.Handle.Echo.{Clean, Clean-ipv4, flatten-nil, Echoing, Honest}
use net_utils.Handle.Echo.Steps.{run-Echoing, new_handle-Echoing, Part-Echoing}

-- The client of a handle of either class gets back what it has sent, in order: whatever order the
-- threads run in, what is on the wire is a prefix of what was received. No `send` fails or takes
-- more than it was offered, and no message has 2^64 bytes; for the IPv6 class each `recv` takes
-- fewer than 2^20 bytes, none of them zero, and no `send` takes nothing.
pub run-echoes_either :
    (c : HandleClass) (fd : ℤ) (turns : List Turn)
    → Honest turns (new_handle c fd)
    → Clean c turns (new_handle c fd)
    → (rest : List ℕ) × ((run turns (new_handle c fd)).wire ++ rest
        ≡ (run turns (new_handle c fd)).received)
run-echoes_either c fd turns ok clean =
    Part-Echoing c (run turns (new_handle c fd))
      (run-Echoing c turns (new_handle c fd) ok clean (new_handle-Echoing c fd))

-- The client of an IPv4 handle gets back what it has sent, in order: whatever order the threads run
-- in, what is on the wire is a prefix of what was received (no `send` fails or takes more than it was
-- offered, and no message has 2^64 bytes).
run-echoes :
    (fd : ℤ) (turns : List Turn)
    → Honest turns (new_handle ipv4_handle fd)
    → (rest : List ℕ) × ((run turns (new_handle ipv4_handle fd)).wire ++ rest
        ≡ (run turns (new_handle ipv4_handle fd)).received)
run-echoes fd turns ok =
    run-echoes_either ipv4_handle fd turns ok (Clean-ipv4 turns (new_handle ipv4_handle fd))

-- When the sending thread of a handle of either class sleeps, the queue is empty and the receiving
-- thread is in `recv`, everything that was received has been sent back. No `send` fails or takes
-- more than it was offered, and no message has 2^64 bytes; for the IPv6 class each `recv` takes
-- fewer than 2^20 bytes, none of them zero, and no `send` takes nothing.
pub run-echoes_all :
    (c : HandleClass) (fd : ℤ) (turns : List Turn)
    → Honest turns (new_handle c fd)
    → Clean c turns (new_handle c fd)
    → (run turns (new_handle c fd)).writer ≡ sleeping
    → (run turns (new_handle c fd)).queue ≡ []
    → (run turns (new_handle c fd)).reader ≡ receiving
    → (run turns (new_handle c fd)).wire ≡ (run turns (new_handle c fd)).received
run-echoes_all c fd turns ok clean =
    whole (run turns (new_handle c fd))
      (run-Echoing c turns (new_handle c fd) ok clean (new_handle-Echoing c fd))
  where
    whole :
        (h : Handle)
        → Echoing c h
        → h.writer ≡ sleeping
        → h.queue ≡ []
        → h.reader ≡ receiving
        → h.wire ≡ h.received
    whole h s asleep empty receives = ground (arith, flatten-nil, append-nil h.wire)
