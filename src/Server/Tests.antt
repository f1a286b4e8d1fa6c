-- ===== src/Server/Tests.antt =====
-- The two servers on a small operating system.
use net_utils.Base.{ℕ, ◌≡◌, refl, sym, inl, true, false, List, [], ◌∷◌, some, pos, arith}
use net_utils.Protocol.{pt_tcp_ipv4}
use net_utils.Context.{SocketContext, ipv4, invalid_fd}
use net_utils.Os.{af_inet}
use net_utils.Os.Table.{Table, table_os, table_laws}
use net_utils.Engine.{is_started, get_connections, get_max_connections, get_listen_socket}
use net_utils.Engine.Init.{init_ipv4_socket, init_listening_socket}
use net_utils.Engine.Init.Descriptors.{Listens, init_listening_socket-Listens}
use net_utils.Server.{
  Server, threads_tcp, admit, accept_client, threads_tcp_bro_server_at, run, start, stop, restart,
}
use net_utils.Server.Accepting.{run-returns, with_clients, arrivals, after}
use net_utils.Server.Lifecycle.{restart-fails, start-leaks, stop-closes_other}
use net_utils.Server.Operations.{starts, step, sets_socket, sets_port, steps, steps-fresh}
use net_utils.Server.Counters.{steps-never_started}

-- Descriptors 0, 1 and 2 are open, and two clients will come.
abbrev busy : Table
busy = record {
  fds = true ∷ true ∷ true ∷ [];
  bind_ok = true;
  clients = (0x0a00_0001, 4001) ∷ (0x0a00_0002, 4002) ∷ [];
}

abbrev taken_port : Table
taken_port = record busy { bind_ok = false }

abbrev echo : Server
echo = record {
  engine = record {
    tag = [];
    protocol_type = pt_tcp_ipv4;
    ip = [];
    port = pos 9001;
    fd = invalid_fd;
    is_running = false;
    is_dump_request = false;
    total_send_bytes = pos 0;
    total_recv_bytes = pos 0;
    connections = 0;
    max_connections = 77;
    socket_context_queue = [];
  };
  server_class = threads_tcp;
  workers = [];
}

echo_lem : threads_tcp_bro_server_at [] [] 9001 77 ≡ echo
unfolding threads_tcp_bro_server_at
echo_lem = refl

abbrev listening : Server
listening = record echo { engine = record echo.engine { fd = pos 3 } }

abbrev listening_table : Table
listening_table = record busy { fds = true ∷ true ∷ true ∷ true ∷ [] }

abbrev client : ℕ → ℕ → ℕ → SocketContext
client fd addr port = record {
  client_fd = pos fd;
  port = port;
  client_addr_str = [];
  request = [];
  response = [];
  client_addr = ipv4 addr port;
}

abbrev both : List SocketContext
both = client 4 0x0a00_0001 4001 ∷ client 5 0x0a00_0002 4002 ∷ []

abbrev served : Server
served = record listening {
  engine = record listening.engine { socket_context_queue = both };
  workers = both;
}

abbrev served_table : Table
served_table = record {
  fds = true ∷ true ∷ true ∷ true ∷ true ∷ true ∷ [];
  bind_ok = true;
  clients = [];
}

two_clients : run table_os 5 listening listening_table ≡ some (false, served, served_table)
unfolding run accept_client admit
two_clients = refl

-- The first `start` makes descriptor 3, serves both clients, and returns false.
first_start : start table_os 5 echo busy ≡ some (false, served, served_table)
unfolding start run accept_client admit init_listening_socket init_ipv4_socket
first_start = refl

run-returns_test :
    run table_os 3 listening listening_table
    ≡ some (
      false,
      with_clients table_os listening (arrivals table_os 2 (pos 3) listening_table),
      after table_os 2 (pos 3) listening_table,
    )
run-returns_test =
    run-returns table_os 2 3 listening listening_table (omega arith) (refl, (refl, refl))

restart-fails_example :
    (w' : Table) × (restart table_os 1 listening listening_table ≡ some (false, listening, w'))
    × (table_os.is_open w' 3 ≡ false)
restart-fails_example = restart-fails table_os table_laws 0 3 listening listening_table refl

start-leaks_test :
    (w' : Table) × (start table_os 1 echo taken_port ≡ some (false, echo, w'))
    × (table_os.is_open taken_port 3 ≡ false)
    × (table_os.is_open w' 3 ≡ true)
unfolding init_listening_socket init_ipv4_socket
start-leaks_test = start-leaks table_os table_laws 1 3 echo af_inet taken_port refl refl refl refl

stop-closes_other_test :
    (table_os.is_open (stop table_os listening listening_table) 3 ≡ false)
    × (table_os.is_open listening_table 3 ≡ true)
    × (table_os.is_open (stop table_os listening listening_table) 3 ≡ false)
unfolding init_listening_socket init_ipv4_socket stop
stop-closes_other_test =
    stop-closes_other table_os table_laws 3 listening echo.engine listening.engine listening_table
      listening_table refl refl refl

init_listening_socket-Listens_example :
    Listens table_os pt_tcp_ipv4 echo.engine busy (init_listening_socket table_os echo.engine busy)
init_listening_socket-Listens_example =
    init_listening_socket-Listens table_os table_laws echo.engine busy

steps-fresh_test :
    (s' : Server) × (steps table_os (sets_socket (pos 8) ∷ sets_port (pos 80) ∷ []) echo busy
      ≡ some (s', busy))
    × (get_listen_socket s'.engine ≡ invalid_fd)
unfolding get_listen_socket
steps-fresh_test =
    steps-fresh table_os (sets_socket (pos 8) ∷ sets_port (pos 80) ∷ []) echo busy (tt, (tt, tt))
      refl

steps-never_started_test :
    (is_started served.engine ≡ false)
    × (get_connections served.engine ≡ 0)
    × (get_max_connections served.engine ≡ 77)
unfolding steps step start run accept_client admit init_listening_socket init_ipv4_socket
steps-never_started_test =
    steps-never_started table_os echo [] [] 9001 77 (starts 5 ∷ []) busy served served_table
      (inl (sym echo_lem)) refl
