-- ===== src/Program/Lifetimes/Tests.antt =====
-- The program of the two broker servers from its start to the return from `main`.
use net_utils.Base.{◌+◌, ◌≡◌, refl, true, List, [], ◌∷◌}
use net_utils.Os.Table.{Table, table_os, table_laws}
use net_utils.Engine.{new_engine_at}
use net_utils.Server.{admit, accept_client, threads_tcp_bro_server_at, threads_tcp6_bro_server_at}
use net_utils.Worker.Closing.{is_fd}
use net_utils.System.Threads.{serves, advance}
use net_utils.System.Accounts.{one_if, holders}
use net_utils.System.Lifetimes.{Happening, of_thread, drops_server, happen}
use net_utils.System.SetUp.{local_fd, set_up_step}
use net_utils.System.Starting.{Starting, starting_step}
use net_utils.System.Starting.Ledger.{starting_share}
use net_utils.Program
use net_utils.Program.Threads.{
  Program, returned_zero, ProgramEvent, of_main, of_tcp, of_tcp6, program_step, program_run,
}
use net_utils.Program.Lifetimes.{engine_threads, engine_program}

abbrev at_first : Table
at_first = record {
  fds = true ∷ true ∷ true ∷ [];
  bind_ok = true;
  clients = (1, 10) ∷ (2, 20) ∷ [];
}

-- The two set-ups go on side by side, each server gets a client whose thread goes on, and `accept`
-- fails in both.
abbrev events : List (ProgramEvent Happening)
events =
    of_main
    ∷ of_main
    ∷ of_tcp6 (of_thread serves)
    ∷ of_tcp (of_thread serves)
    ∷ of_tcp6 (of_thread serves)
    ∷ of_tcp6 (of_thread serves)
    ∷ of_tcp (of_thread serves)
    ∷ of_tcp (of_thread serves)
    ∷ of_tcp6 (of_thread serves)
    ∷ of_tcp (of_thread serves)
    ∷ of_tcp6 (of_thread serves)
    ∷ of_tcp6 (of_thread serves)
    ∷ of_tcp (of_thread serves)
    ∷ of_tcp (of_thread serves)
    ∷ of_tcp drops_server
    ∷ of_main
    ∷ of_tcp6 (of_thread serves)
    ∷ of_tcp6 drops_server
    ∷ of_main
    ∷ []

abbrev ended : Program Starting × Table
ended = program_run (engine_threads table_os) events (engine_program 0 0, at_first)

at_end : ended.0.main ≡ returned_zero
unfolding program_run program_step starting_step set_up_step happen advance accept_client admit
    threads_tcp_bro_server_at threads_tcp6_bro_server_at new_engine_at
at_end = refl

program_run-Accounted_example :
    one_if (table_os.is_open ended.1 4)
    ≡ one_if (table_os.is_open at_first 4)
      + starting_share 4 ended.0.tcp
      + starting_share 4 ended.0.tcp6
program_run-Accounted_example =
    Program.Lifetimes.Ended.program_run-Accounted table_os table_laws 0 0 events at_first ended.1
      ended.0 refl 4

returned_zero-Accounted_example :
    one_if (table_os.is_open ended.1 5)
    ≡ one_if (table_os.is_open at_first 5)
      + one_if (is_fd 5 ended.0.tcp.process.running.server.fd)
      + one_if (is_fd 5 (local_fd ended.0.tcp.set_up))
      + holders 5 ended.0.tcp.process.running.sessions
      + one_if (is_fd 5 ended.0.tcp6.process.running.server.fd)
      + one_if (is_fd 5 (local_fd ended.0.tcp6.set_up))
      + holders 5 ended.0.tcp6.process.running.sessions
returned_zero-Accounted_example =
    Program.Lifetimes.Ended.returned_zero-Accounted table_os table_laws 0 0 events at_first ended.1
      ended.0 refl at_end 5
