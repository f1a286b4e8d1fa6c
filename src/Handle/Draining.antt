-- ===== src/Handle/Draining.antt =====
-- How the sending thread of a client handle empties the queue of messages.
use net_utils.Base.{
  ℕ, ◌+◌, ◌*◌, ◌<◌, ◌≤◌, ◌^◌, ◌≡◌, refl, ap, ◌∙◌, List, [], ◌∷◌, ◌++◌, append_assoc, append-nil,
  length, All, ℤ, pos, arith,
}
use net_utils.Io.Send.{sent}
use net_utils.Io.Send.Delivery.{send_bytes-whole}
use net_utils.Handle.{
  HandleClass, ipv4_handle, ipv6_handle, receiving, testing, sleeping, Handle, new_handle, Turn,
  writes, step, run, write_at,
}
use net_utils.Handle.Echo.{flatten, Honest, Clean, Echoing}
use net_utils.Handle.Echo.Steps.{run-Echoing, new_handle-Echoing}

-- Each `send` takes the whole message. The IPv4 class tests the descriptor after each message.
abbrev pub drain : HandleClass → List (List ℕ) → List Turn
drain c [] = writes [] ∷ []
drain ipv4_handle (msg ∷ queue) =
    writes [] ∷ writes (sent (length msg) ∷ []) ∷ writes [] ∷ drain ipv4_handle queue
drain ipv6_handle (msg ∷ queue) =
    writes [] ∷ writes (sent (length msg) ∷ []) ∷ drain ipv6_handle queue

length-drain :
    (c : HandleClass) (queue : List (List ℕ)) → length (drain c queue) ≤ 3 * length queue + 1
length-drain c [] = omega arith
length-drain ipv4_handle (msg ∷ queue) = omega (arith, length-drain ipv4_handle queue)
length-drain ipv6_handle (msg ∷ queue) = omega (arith, length-drain ipv6_handle queue)

module _ (n : ℕ) (msg : List ℕ) (queue : List (List ℕ)) (more : List Turn) (h : Handle)
    (open_fd : h.client_fd ≡ pos n) (at_test : h.writer ≡ testing) (holds : h.queue ≡ msg ∷ queue)
    (small : length msg < 2 ^ 64) where
  abbrev passed : Handle
  passed = record h { queue = queue; wire = h.wire ++ msg }

  message_round4 :
      h.handle_class ≡ ipv4_handle
      → run (writes [] ∷ writes (sent (length msg) ∷ []) ∷ writes [] ∷ more) h ≡ run more passed
  unfolding run step write_at
  message_round4 class4 = rw (at_test, holds, open_fd, class4, send_bytes-whole 0 msg small) refl

  message_round6 :
      h.handle_class ≡ ipv6_handle
      → run (writes [] ∷ writes (sent (length msg) ∷ []) ∷ more) h ≡ run more passed
  unfolding run step write_at
  message_round6 class6 = rw (at_test, holds, open_fd, class6, send_bytes-whole 0 msg small) refl

run-drain :
    (c : HandleClass) (n : ℕ) (queue : List (List ℕ)) (h : Handle)
    → h.handle_class ≡ c
    → h.client_fd ≡ pos n
    → h.writer ≡ testing
    → h.queue ≡ queue
    → All (λ msg. length msg < 2 ^ 64) queue
    → run (drain c queue) h
      ≡ record h { queue = []; writer = sleeping; wire = h.wire ++ flatten queue }
unfolding flatten
run-drain c n [] h ec ef ew eq small =
    unfold run step write_at in rw (ew, eq, append-nil h.wire) refl
run-drain ipv4_handle n (msg ∷ queue) h ec ef ew eq small =
    message_round4 n msg queue (drain ipv4_handle queue) h ef ew eq small.0 ec
    ∙ run-drain ipv4_handle n queue (passed n msg queue [] h ef ew eq small.0) ec ef ew refl small.1
    ∙ ap (λ bytes. record h { queue = []; writer = sleeping; wire = bytes })
        (append_assoc h.wire msg (flatten queue))
run-drain ipv6_handle n (msg ∷ queue) h ec ef ew eq small =
    message_round6 n msg queue (drain ipv6_handle queue) h ef ew eq small.0 ec
    ∙ run-drain ipv6_handle n queue (passed n msg queue [] h ef ew eq small.0) ec ef ew refl small.1
    ∙ ap (λ bytes. record h { queue = []; writer = sleeping; wire = bytes })
        (append_assoc h.wire msg (flatten queue))

in_queue :
    (c : HandleClass) (h : Handle)
    → Echoing c h
    → h.writer ≡ testing
    → h.reader ≡ receiving
    → h.wire ++ flatten h.queue ≡ h.received
in_queue c h s at_test receives = ground (arith, append-nil (flatten h.queue))

drained :
    (c : HandleClass) (n : ℕ) (h : Handle)
    → Echoing c h
    → h.client_fd ≡ pos n
    → h.writer ≡ testing
    → h.reader ≡ receiving
    → All (λ msg. length msg < 2 ^ 64) h.queue
    → run (drain c h.queue) h ≡ record h { queue = []; writer = sleeping; wire = h.received }
drained c n h s open_fd at_test receives small =
    run-drain c n h.queue h s.of_class open_fd at_test refl small
    ∙ ap (λ bytes. record h { queue = []; writer = sleeping; wire = bytes })
        (in_queue c h s at_test receives)

-- The sending thread of a handle of either class can always finish the echo. If it stands before
-- the test of the queue while the receiving thread is in `recv` and the descriptor is valid, then
-- in the turns of `drain`, three for each message at most and one more, everything that was
-- received is sent back, the queue is empty, the thread sleeps, and nothing else of the handle
-- changes. Until then no `send` failed or took more than it was offered, and no message has 2^64
-- bytes; for the IPv6 class each `recv` takes fewer than 2^20 bytes, none of them zero, and no
-- `send` took nothing.
pub run-drains :
    (c : HandleClass) (fd : ℤ) (n : ℕ) (turns : List Turn)
    → Honest turns (new_handle c fd)
    → Clean c turns (new_handle c fd)
    → (run turns (new_handle c fd)).client_fd ≡ pos n
    → (run turns (new_handle c fd)).writer ≡ testing
    → (run turns (new_handle c fd)).reader ≡ receiving
    → All (λ msg. length msg < 2 ^ 64) (run turns (new_handle c fd)).queue
    → (length (drain c (run turns (new_handle c fd)).queue)
        ≤ 3 * length (run turns (new_handle c fd)).queue + 1)
      × (run (drain c (run turns (new_handle c fd)).queue) (run turns (new_handle c fd))
          ≡ record (run turns (new_handle c fd)) {
            queue = [];
            writer = sleeping;
            wire = (run turns (new_handle c fd)).received;
          })
run-drains c fd n turns ok clean open_fd at_test receives small = (
  length-drain c (run turns (new_handle c fd)).queue,
  drained c n (run turns (new_handle c fd))
      (run-Echoing c turns (new_handle c fd) ok clean (new_handle-Echoing c fd)) open_fd at_test
      receives small,
)
