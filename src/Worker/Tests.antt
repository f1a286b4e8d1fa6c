-- ===== src/Worker/Tests.antt =====
-- Runs of the worker on concrete clients and schedules.
use net_utils.Base.{ℕ, ◌≡◌, ◌≢◌, ◌⊎◌, refl, true, List, [], ◌∷◌, ◌++◌, pos, take, arith}
use net_utils.Context.{
  SocketContext, ipv4, ipv6, invalid_fd, ipv4_socket_context, ipv6_socket_context,
}
use net_utils.Io.Recv.{got}
use net_utils.Os.{Accepted}
use net_utils.Os.Table.{table_os}
use net_utils.Server.{threads_tcp, context_for}
use net_utils.Worker
use net_utils.Worker.{
  Worker, free, closing, sleeping, finished, joining_recv, returned_true, new_worker, Turn, mains,
  reads, writes, enables_write, step, run, read_at, write_at, main_at,
}
use net_utils.Io.Send.{sent}
use net_utils.Worker.Responses.{Honest, repeated}
use net_utils.Worker.Bytes.{pending}
use net_utils.Worker.Closing.{OpenOrClosed, closes_of}
use net_utils.Worker.Hanging.{exit_race, start_race}
use net_utils.Worker.Ending.{ending, sleeping-ends}

abbrev client : SocketContext
client = ipv4_socket_context (pos 4) 5000 (ipv4 1 5000)

-- The reading thread takes two pieces while the sending thread goes to sleep.
abbrev served : List Turn
served =
    mains
    ∷ mains
    ∷ mains
    ∷ mains
    ∷ reads (got [])
    ∷ reads (got [])
    ∷ reads (got [])
    ∷ reads (got [])
    ∷ reads (got (7 ∷ 8 ∷ []))
    ∷ writes []
    ∷ writes []
    ∷ writes []
    ∷ reads (got [])
    ∷ reads (got [])
    ∷ reads (got [])
    ∷ reads (got [])
    ∷ reads (got (9 ∷ []))
    ∷ []

served_request : (run served (new_worker client)).request ≡ 7 ∷ 8 ∷ []
unfolding run step read_at write_at main_at
served_request = refl

run-request_example :
    (run served (new_worker client)).request ++ pending (run served (new_worker client)).reader
    ≡ [] ++ (run served (new_worker client)).received
run-request_example = Worker.Bytes.run-request client served

abbrev client6 : SocketContext
client6 = ipv6_socket_context (pos 4) 5000 (ipv6 1 5000)

abbrev somebody : Accepted
somebody = record { fd = pos 4; addr = 1; port = 5000 }

asleep : (run served (new_worker client)).writer ≡ sleeping
unfolding run step read_at write_at main_at
asleep = refl

abbrev asked : List Turn
asked = enables_write ∷ writes [] ∷ reads (got []) ∷ writes [] ∷ []

sleeps_until_exit_test :
    ((run asked (run served (new_worker client))).writer ≡ sleeping)
    ⊎ ((run asked (run served (new_worker client))).reader ≡ finished)
sleeps_until_exit_test =
    Worker.Sleeping.sleeps_until_exit client served asked asleep (tt, (tt, (tt, (tt, tt))))

exit_race-hangs_example :
    (run asked (run exit_race (new_worker (context_for table_os threads_tcp somebody)))).main
    ≢ returned_true
exit_race-hangs_example =
    Worker.Hanging.exit_race-hangs table_os somebody asked (tt, (tt, (tt, (tt, tt))))

-- The client closes the connection while the sending thread sleeps.
abbrev leaving : List Turn
leaving =
    served
    ++ reads (got []) ∷ reads (got []) ∷ reads (got []) ∷ reads (got []) ∷ reads (got []) ∷ []

abbrev left : Worker
left = run leaving (new_worker client)

left_stands :
    (left.main ≡ joining_recv)
    × (left.reader ≡ closing)
    × (left.mutex ≡ free)
    × (left.writer ≡ sleeping)
    × (left.send_thread ≡ true)
    × (left.response ≡ [])
    × (left.client_fd ≡ pos 4)
    × (left.closes ≡ [])
unfolding run step read_at write_at main_at
left_stands = (refl, refl, refl, refl, refl, refl, refl, refl)

sleeping-ends_example :
    ((run (ending 9) left).main ≡ returned_true)
    × ((run (ending 9) left).reader ≡ finished)
    × ((run (ending 9) left).writer ≡ finished)
    × ((run (ending 9) left).closes ≡ (left.closes ++ left.client_fd ∷ []) ++ invalid_fd ∷ [])
sleeping-ends_example =
    sleeping-ends 9 left left_stands.0 left_stands.1 left_stands.2 left_stands.3 left_stands.4
      (rw left_stands.5 (omega arith))

run-append :
    (before after : List Turn) (w : Worker) → run (before ++ after) w ≡ run after (run before w)
unfolding run
run-append [] after w = refl
run-append (t ∷ before) after w = run-append before after (step t w)

returns : (run (leaving ++ ending 9) (new_worker client)).main ≡ returned_true
returns = rw (run-append leaving (ending 9) (new_worker client)) (
    (sleeping-ends 9 left left_stands.0 left_stands.1 left_stands.2 left_stands.3 left_stands.4
      (rw left_stands.5 (omega arith))).0)

returned-closed_example :
    ((run (leaving ++ ending 9) (new_worker client)).reader ≡ finished)
    × ((run (leaving ++ ending 9) (new_worker client)).writer ≡ finished)
    × ((run (leaving ++ ending 9) (new_worker client)).client_fd ≡ invalid_fd)
    × (closes_of 4 (run (leaving ++ ending 9) (new_worker client)).closes ≡ 1)
returned-closed_example =
    Worker.Closing.returned-closed client 4 1 5000 (leaving ++ ending 9) refl refl returns

abbrev answered : SocketContext
answered = record client { response = 5 ∷ 6 ∷ [] }

-- The response goes out once.
abbrev answering : List Turn
answering =
    mains
    ∷ mains
    ∷ mains
    ∷ mains
    ∷ enables_write
    ∷ writes []
    ∷ writes []
    ∷ writes []
    ∷ writes []
    ∷ writes []
    ∷ writes (sent 2 ∷ [])
    ∷ []

answering-Honest : Honest answering (new_worker answered)
unfolding run step read_at write_at main_at
answering-Honest =
    (tt, (tt, (tt, (tt, (tt, (tt, (tt, (tt, (tt, (tt, ((omega arith, tt), tt)))))))))))

run-responses_example :
    (k : ℕ) × (j : ℕ) × ((run answering (new_worker answered)).wire
      ≡ repeated k (5 ∷ 6 ∷ []) ++ take j (5 ∷ 6 ∷ []))
run-responses_example =
    Worker.Responses.run-responses answered answering (omega arith) answering-Honest
