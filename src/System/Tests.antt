-- ===== src/System/Tests.antt =====
-- Runs of a server with its workers and its handles.
use net_utils.Base.{
  ℕ, ◌≡◌, refl, true, false, List, [], ◌∷◌, ◌++◌, length, All, get_elem?, some, pos, arith,
}
use net_utils.Protocol.{pt_tcp_ipv4}
use net_utils.Context.{invalid_fd}
use net_utils.Os.Table.{Table, table_os, table_laws}
use net_utils.Engine.{Engine}
use net_utils.Server
use net_utils.Server.{Server, threads_tcp, threads_tcp6}
use net_utils.Io.Recv.{got}
use net_utils.Io.Send.{sent}
use net_utils.Worker
use net_utils.Worker.{mains, reads, writes}
use net_utils.Handle
use net_utils.Handle.{ipv4_handle, new_handle}
use net_utils.Handle.Echo.{Honest, Clean-ipv4}
use net_utils.TcpServer
use net_utils.TcpServer.{
  TcpServer, new_tcp_server, handle_client, set_timeouts, init_socket, init_socket4,
}
use net_utils.TcpServer.Accepting.{FailsAt, arrivals}
use net_utils.Engine.Init.{init_listening_socket, init_ipv4_socket}
use net_utils.System.Descriptors.{close_all}
use net_utils.System.Broker.{Untouched, Attended, Released}
use net_utils.System

-- Descriptors 0 to 3 are open, and two clients will come.
abbrev busy : Table
busy = record {
  fds = true ∷ true ∷ true ∷ true ∷ [];
  bind_ok = true;
  clients = (1, 10) ∷ (2, 20) ∷ [];
}

abbrev engine : Engine
engine = record {
  tag = [];
  protocol_type = pt_tcp_ipv4;
  ip = [];
  port = pos 9001;
  fd = pos 3;
  is_running = false;
  is_dump_request = false;
  total_send_bytes = pos 0;
  total_recv_bytes = pos 0;
  connections = 0;
  max_connections = 77;
  socket_context_queue = [];
}

abbrev bro : Server
bro = record { engine = engine; server_class = threads_tcp; workers = [] }

abbrev bro6 : Server
bro6 = record { engine = engine; server_class = threads_tcp6; workers = [] }

abbrev turns : List Worker.Turn
turns =
    mains
    ∷ mains
    ∷ mains
    ∷ mains
    ∷ reads (got [])
    ∷ reads (got [])
    ∷ reads (got [])
    ∷ reads (got [])
    ∷ reads (got (7 ∷ 8 ∷ []))
    ∷ writes []
    ∷ []

tcp6_run-Untouched_test :
    (s' : Server) × (w' : Table) × (Server.run table_os 3 bro6 busy ≡ some (false, s', w'))
    × (length s'.workers ≡ 2)
    × All (Untouched turns) s'.workers
tcp6_run-Untouched_test =
    System.Broker.tcp6_run-Untouched table_os 2 3 bro6 busy turns (omega arith) (refl, (refl, refl))
      refl refl

tcp_run-Attended_test :
    (s' : Server) × (w' : Table) × (Server.run table_os 3 bro busy ≡ some (false, s', w'))
    × (length s'.workers ≡ 2)
    × All (Attended turns) s'.workers
tcp_run-Attended_test =
    System.Broker.tcp_run-Attended table_os 2 3 bro busy turns (omega arith) (refl, (refl, refl))
      refl refl

abbrev unstarted : Server
unstarted = record bro { engine = record engine { fd = invalid_fd } }

abbrev at_first : Table
at_first = record busy { fds = true ∷ true ∷ true ∷ [] }

set_up : init_listening_socket table_os unstarted.engine at_first ≡ (some engine, busy)
unfolding init_listening_socket init_ipv4_socket
set_up = refl

-- The second client's descriptor is closed before the first one's.
start-stop_test :
    (s' : Server) × (w' : Table) × (Server.start table_os 3 unstarted at_first
      ≡ some (false, s', w'))
    × All (Released table_os turns) s'.workers
    × (table_os.is_open (Server.stop table_os s' (close_all table_os (pos 5 ∷ pos 4 ∷ []) w')) 5
        ≡ false)
start-stop_test =
    System.Shutdown.start-stop table_os table_laws 2 3 unstarted engine at_first busy refl refl
      set_up (omega arith) (refl, (refl, refl)) turns (pos 5 ∷ pos 4 ∷ []) 5 (λ n. ground arith)

abbrev plain : TcpServer
plain = record (new_tcp_server ipv4_handle 9001) { fd = pos 3 }

-- The client with descriptor 5 gets one byte back.
abbrev one_byte : List Handle.Turn
one_byte =
    Handle.mains
    ∷ Handle.mains
    ∷ Handle.writes []
    ∷ Handle.reads (got (7 ∷ []))
    ∷ Handle.reads (got [])
    ∷ Handle.reads (got [])
    ∷ Handle.writes []
    ∷ Handle.writes (sent 1 ∷ [])
    ∷ []

one_byte-Honest : Honest one_byte (new_handle ipv4_handle (pos 5))
unfolding Handle.run Handle.step Handle.read_at Handle.write_at Handle.main_at
one_byte-Honest = (tt, (tt, (tt, (tt, (tt, (tt, (tt, ((omega arith, (omega arith, tt)), tt))))))))

plain-FailsAt : FailsAt table_os ipv4_handle (pos 3) 2 busy
unfolding set_timeouts
plain-FailsAt = (refl, (pos 0, refl), (refl, (pos 0, refl), refl))

second :
    get_elem? (arrivals table_os ipv4_handle (pos 3) 2 busy) 1
    ≡ some record { fd = pos 5; addr = 2; port = 20 }
unfolding set_timeouts
second = refl

plain_set_up :
    init_socket table_os ipv4_handle (new_tcp_server ipv4_handle 9001) at_first
    ≡ (some (pos 3), busy)
unfolding init_socket4
plain_set_up = refl

start-stop_plain_test :
    (s' : TcpServer) × (w' : Table) × (TcpServer.start table_os 3
        (new_tcp_server ipv4_handle 9001)
        at_first
      ≡ some (false, s', w'))
    × (s'.handles ≡ arrivals table_os ipv4_handle (pos 3) 2 busy)
    × (table_os.is_open
          (TcpServer.stop table_os s' (close_all table_os (pos 5 ∷ pos 4 ∷ []) w')).2
          5
        ≡ false)
unfolding set_timeouts
start-stop_plain_test =
    System.Plain.start-stop_plain table_os table_laws 2 3 3 (new_tcp_server ipv4_handle 9001)
      at_first busy (pos 5 ∷ pos 4 ∷ []) 5 refl refl plain_set_up (omega arith) plain-FailsAt
      (λ n. ground arith)

served-echoes_test :
    (s' : TcpServer) × (w' : Table) × (TcpServer.run table_os 3 plain busy ≡ some (false, s', w'))
    × (get_elem? s'.handles 1 ≡ some record { fd = pos 5; addr = 2; port = 20 })
    × (rest : List ℕ) × ((Handle.run one_byte (new_handle ipv4_handle (pos 5))).wire ++ rest
        ≡ (Handle.run one_byte (new_handle ipv4_handle (pos 5))).received)
unfolding handle_client
served-echoes_test =
    System.Echo.served-echoes table_os 2 3 1 plain busy record { fd = pos 5; addr = 2; port = 20 }
      one_byte (omega arith) plain-FailsAt refl second one_byte-Honest
      (Clean-ipv4 one_byte (new_handle ipv4_handle (pos 5)))
