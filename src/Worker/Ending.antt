-- ===== src/Worker/Ending.antt =====
-- How the two threads of ThreadsTcpBroWorker.cpp end when the sending thread sleeps: the reading
-- thread hands over the flag, the interruption and the notification.
use net_utils.Base.{
  ℕ, ◌<◌, ◌-◌, ◌^◌, ◌≡◌, refl, Bool, true, ◌||◌, List, [], ◌∷◌, ◌++◌, length, arith,
}
use net_utils.Context.{invalid_fd}
use net_utils.Io.Run.{returned}
use net_utils.Io.Send.{failed, send_bytes}
use net_utils.Io.Recv.{got}
use net_utils.Io.Send.Delivery.{send_bytes-eq-returned}
use net_utils.Io.Send.Failure.{send_bytes-failed}
use net_utils.Worker.{
  closing, sleeping, finished, joining_recv, returned_true, free, Worker, Turn, mains, reads,
  writes, step, run, read_at, write_at, main_at,
}

-- The reading thread closes and wakes the sending thread, which fails to send on the closed
-- descriptor, is interrupted and closes in its turn. Then `doWork` joins both.
abbrev pub ending : ℕ → List Turn
ending e =
    reads (got [])
    ∷ reads (got [])
    ∷ reads (got [])
    ∷ reads (got [])
    ∷ reads (got [])
    ∷ writes []
    ∷ writes []
    ∷ writes []
    ∷ writes (failed e ∷ [])
    ∷ writes []
    ∷ writes []
    ∷ writes []
    ∷ writes []
    ∷ writes []
    ∷ writes []
    ∷ mains
    ∷ mains
    ∷ []

send_bytes-closed :
    (e : ℕ) (response : List ℕ)
    → length response < 2 ^ 64 - 1
    → send_bytes 0 response (failed e ∷ []) ≡ returned true []
send_bytes-closed e [] small =
    send_bytes-eq-returned 0 [] (failed e ∷ []) (omega arith) tt tt (omega arith)
send_bytes-closed e (x ∷ xs) small = send_bytes-failed 0 e (x ∷ xs) [] (omega arith) small

or_true : (b : Bool) → (b || true) ≡ true
or_true b = ground arith

-- When the reading thread leaves its loop, not yet in its section under `mMutex`, while the sending thread sleeps and `doWork` waits, there
-- is an order of steps in which `doWork` returns with both threads ended; in it `close` is called with
-- the descriptor of the context and then with the invalid one (the response is shorter than
-- 2^64 - 1).
pub sleeping-ends :
    (e : ℕ) (w : Worker)
    → w.main ≡ joining_recv
    → w.reader ≡ closing
    → w.mutex ≡ free
    → w.writer ≡ sleeping
    → w.send_thread ≡ true
    → length w.response < 2 ^ 64 - 1
    → ((run (ending e) w).main ≡ returned_true)
      × ((run (ending e) w).reader ≡ finished)
      × ((run (ending e) w).writer ≡ finished)
      × ((run (ending e) w).closes ≡ (w.closes ++ w.client_fd ∷ []) ++ invalid_fd ∷ [])
unfolding run step read_at write_at main_at
sleeping-ends e w at_main at_reader unlocked at_writer stands small =
    rw
      (
        at_main,
        at_reader,
        unlocked,
        at_writer,
        stands,
        or_true w.send_interrupted,
        send_bytes-closed e w.response small,
      )
      (refl, refl, refl, refl)
