-- ===== src/Program/Threads/Tests.antt =====
-- The two programs with all their threads.
use net_utils.Base.{◌+◌, ◌≤◌, ◌≡◌, ◌≢◌, refl, true, false, List, [], ◌∷◌, ◌++◌, pos, is_neg, inr}
use net_utils.Protocol.{codes}
use net_utils.Os.{Text}
use net_utils.Os.Table.{Table, table_os, table_laws}
use net_utils.Handle.{HandleClass, ipv4_handle, ipv6_handle}
use net_utils.TcpServer
use net_utils.TcpServer.{
  TcpServer, new_tcp_server, set_timeouts, init_socket4, init_socket6, handle_client,
}
use net_utils.Engine.{new_engine_at}
use net_utils.Engine.Init.{init_listening_socket, init_ipv4_socket, init_ipv6_socket}
use net_utils.Server.{admit, accept_client, threads_tcp_bro_server_at, threads_tcp6_bro_server_at}
use net_utils.System.Threads.{Running, unset, Event, serves, advance}
use net_utils.System.PlainThreads
use net_utils.System.PlainThreads.{Plain, PlainEvent, plain_advance}
use net_utils.System.PlainSteps.{TakesLimits}
use net_utils.System.Accounts.{one_if}
use net_utils.Program
use net_utils.Program.{launch, atoi, signed, number}
use net_utils.Program.Threads.{
  Program, returned_zero, ProgramEvent, of_main, of_tcp, of_tcp6, program_step, program_run,
}
use net_utils.Program.Servers.{broker_threads, broker_program, plain_threads, plain_program}
use net_utils.Program.Shared.{share}
use net_utils.Program.SharedPlain.{plain_share}
use net_utils.Program.Joining.{IsBack, main_turns}

abbrev at_first : Table
at_first = record {
  fds = true ∷ true ∷ true ∷ [];
  bind_ok = true;
  clients = (1, 10) ∷ (2, 20) ∷ [];
}

-- Both servers are set up, each gets a client, and `accept` fails in both.
abbrev events : List (ProgramEvent Event)
events =
    of_main
    ∷ of_main
    ∷ of_tcp serves
    ∷ of_tcp6 serves
    ∷ of_tcp6 serves
    ∷ of_tcp serves
    ∷ of_tcp serves
    ∷ of_main
    ∷ of_tcp6 serves
    ∷ []

abbrev ran : Program Running × Table
ran = program_run (broker_threads table_os) events (broker_program 0 0, at_first)

fine : ran.0.tcp.phase ≢ unset
unfolding program_run program_step advance accept_client admit init_listening_socket
    init_ipv4_socket init_ipv6_socket threads_tcp_bro_server_at threads_tcp6_bro_server_at
    new_engine_at
fine e = cc

fine6 : ran.0.tcp6.phase ≢ unset
unfolding program_run program_step advance accept_client admit init_listening_socket
    init_ipv4_socket init_ipv6_socket threads_tcp_bro_server_at threads_tcp6_bro_server_at
    new_engine_at
fine6 e = cc

program_run-Accounted_test :
    one_if (table_os.is_open ran.1 5)
    ≡ one_if (table_os.is_open at_first 5) + share 5 ran.0.tcp + share 5 ran.0.tcp6
program_run-Accounted_test =
    Program.Shared.program_run-Accounted table_os table_laws 0 0 events at_first ran.1 ran.0 refl
      fine fine6 5

abbrev ended : Program Running × Table
ended =
    program_run (broker_threads table_os) (events ++ of_main ∷ []) (broker_program 0 0, at_first)

at_end : ended.0.main ≡ returned_zero
unfolding program_run program_step advance accept_client admit init_listening_socket
    init_ipv4_socket init_ipv6_socket threads_tcp_bro_server_at threads_tcp6_bro_server_at
    new_engine_at
at_end = refl

returned_zero-IsBack_test :
    IsBack (broker_threads table_os) ended.0.tcp × IsBack (broker_threads table_os) ended.0.tcp6
returned_zero-IsBack_test =
    Program.Joining.returned_zero-IsBack (broker_threads table_os) (broker_program 0 0).tcp
      (broker_program 0 0).tcp6 (events ++ of_main ∷ []) at_first ended.1 ended.0 refl at_end

back : IsBack (broker_threads table_os) ran.0.tcp
unfolding program_run program_step advance accept_client admit init_listening_socket
    init_ipv4_socket init_ipv6_socket threads_tcp_bro_server_at threads_tcp6_bro_server_at
    new_engine_at
back = (false, refl)

back6 : IsBack (broker_threads table_os) ran.0.tcp6
unfolding program_run program_step advance accept_client admit init_listening_socket
    init_ipv4_socket init_ipv6_socket threads_tcp_bro_server_at threads_tcp6_bro_server_at
    new_engine_at
back6 = (false, refl)

IsBack-returned_zero_test :
    program_run (broker_threads table_os) (main_turns (broker_threads table_os)) (ran.0, ran.1)
    ≡ (record ran.0 { main = returned_zero }, ran.1)
IsBack-returned_zero_test =
    Program.Joining.IsBack-returned_zero (broker_threads table_os) ran.0 ran.1 back back6

-- `echo 9001`: both servers are set up, and each gets a client.
abbrev args : List Text
args = codes "echo" ∷ codes "9001" ∷ []

abbrev servers : TcpServer × TcpServer
servers = (new_tcp_server ipv4_handle 9001, new_tcp_server ipv6_handle 9001)

launched : launch args ≡ inr servers
unfolding launch atoi signed number
launched = refl

abbrev plain_events : List (ProgramEvent PlainEvent)
plain_events =
    of_main
    ∷ of_main
    ∷ of_tcp6 PlainThreads.serves
    ∷ of_tcp PlainThreads.serves
    ∷ of_tcp PlainThreads.serves
    ∷ of_tcp6 PlainThreads.serves
    ∷ []

abbrev plain_ran : Program Plain × Table
plain_ran = program_run (plain_threads table_os) plain_events (plain_program servers, at_first)

socket : is_neg plain_ran.0.tcp.server.fd ≡ false
unfolding program_run program_step plain_advance TcpServer.accept_client set_timeouts init_socket4
    init_socket6 handle_client
socket = refl

socket6 : is_neg plain_ran.0.tcp6.server.fd ≡ false
unfolding program_run program_step plain_advance TcpServer.accept_client set_timeouts init_socket4
    init_socket6 handle_client
socket6 = refl

limits : (c : HandleClass) → TakesLimits table_os c
unfolding set_timeouts
limits ipv4_handle fd w = (pos 0, refl)
limits ipv6_handle fd w = (fd, refl)

program_run-Bounded_example :
    one_if (table_os.is_open plain_ran.1 5)
    ≤ one_if (table_os.is_open at_first 5)
      + plain_share 5 plain_ran.0.tcp
      + plain_share 5 plain_ran.0.tcp6
program_run-Bounded_example =
    Program.SharedPlain.program_run-Bounded table_os table_laws limits args servers plain_events
      at_first plain_ran.1 plain_ran.0 launched refl socket socket6 5
