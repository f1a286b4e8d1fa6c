-- ===== src/System/Threads/Tests.antt =====
-- A broker server whose first client leaves and whose second gets the first one's descriptor.
use net_utils.Base.{
  ℕ, ◌+◌, ◌≡◌, ◌≢◌, refl, true, false, List, [], ◌∷◌, ◌++◌, map, get_elem?, Option, none, some, pos,
  All,
}
use net_utils.Protocol.{pt_tcp_ipv4}
use net_utils.Context.{invalid_fd, socket_context}
use net_utils.Os.Table.{Table, table_os, table_laws}
use net_utils.Engine.Init.{init_listening_socket, init_ipv4_socket}
use net_utils.Server
use net_utils.Server.{Server, threads_tcp, admit, accept_client}
use net_utils.Io.Recv.{got}
use net_utils.Worker
use net_utils.Worker.{mains, reads, writes, in_recv, held_fd, new_worker}
use net_utils.Worker.Closing.{is_fd}
use net_utils.System
use net_utils.System.Accounts.{Level, one_if, holders}
use net_utils.System.Interleaved.{Listening}
use net_utils.System.Alone.{outcome, turns_of_start}
use net_utils.System.Sessions.{Takes}
use net_utils.System.Traces.{Serviced}
use net_utils.Worker.Own.{Quiet}
use net_utils.System.Threads.{
  Running, new_running, unset, Session, Event, serves, turns, advance, advance_all, destroy_all,
}

abbrev unstarted : Server
unstarted = record {
  engine = record {
    tag = [];
    protocol_type = pt_tcp_ipv4;
    ip = [];
    port = pos 9001;
    fd = invalid_fd;
    is_running = false;
    is_dump_request = false;
    total_send_bytes = pos 0;
    total_recv_bytes = pos 0;
    connections = 0;
    max_connections = 77;
    socket_context_queue = [];
  };
  server_class = threads_tcp;
  workers = [];
}

abbrev at_first : Table
at_first = record {
  fds = true ∷ true ∷ true ∷ [];
  bind_ok = true;
  clients = (1, 10) ∷ (2, 20) ∷ [];
}

-- The i-th worker's receiving thread gets into `recv`.
abbrev into_recv : ℕ → List Event
into_recv i =
    turns i mains
    ∷ turns i (reads (got []))
    ∷ turns i (reads (got []))
    ∷ turns i (reads (got []))
    ∷ turns i (reads (got []))
    ∷ []

-- The first client hangs up, its worker closes 4, and the second client gets 4 before the first one's
-- context has been cleared.
abbrev events : List Event
events =
    (serves ∷ serves ∷ into_recv 0)
    ++ ((turns 0 (reads (got [])) ∷ turns 0 (reads (got [])) ∷ serves ∷ []) ++ into_recv 1)

quiet : All (Takes Quiet) events
quiet = (tt, (tt, (tt, (tt, (tt, (tt, (tt, (tt, (tt, (tt, (tt, (tt, (tt, (tt, (tt, tt)))))))))))))))

abbrev final : Running × Table
final = advance_all table_os events (new_running unstarted, at_first)

fine : final.0.phase ≢ unset
unfolding advance_all advance accept_client admit init_listening_socket init_ipv4_socket Worker.step
    Worker.read_at Worker.main_at
fine e = cc

advance_all-Accounted_test :
    one_if (table_os.is_open final.1 4)
    ≡ one_if (table_os.is_open at_first 4)
      + one_if (is_fd 4 final.0.server.fd)
      + holders 4 final.0.sessions
advance_all-Accounted_test =
    System.Interleaved.advance_all-Accounted table_os table_laws unstarted events at_first final.1
      final.0 refl refl fine 4

listens : Listening final.0.phase
unfolding advance_all advance accept_client admit init_listening_socket init_ipv4_socket Worker.step
    Worker.read_at Worker.main_at
listens = tt

-- After `stop` the second client hangs up too, or stays.
abbrev rest : List Event
rest =
    serves
    ∷ turns 0 (reads (got []))
    ∷ turns 0 (writes [])
    ∷ turns 1 (reads (got []))
    ∷ turns 1 (reads (got []))
    ∷ turns 1 (reads (got []))
    ∷ serves
    ∷ []

abbrev stopped : Running × Table
stopped = advance_all table_os rest (final.0, Server.stop table_os final.0.server final.1)

level : All Level stopped.0.sessions
unfolding advance_all advance accept_client admit init_listening_socket init_ipv4_socket Worker.step
    Worker.read_at Worker.write_at Worker.main_at Server.stop
level = (refl, (refl, tt))

stopped-restored_example :
    table_os.is_open (destroy_all table_os stopped.0.sessions stopped.1) 3
    ≡ table_os.is_open at_first 3
stopped-restored_example =
    System.Interleaved.stopped-restored table_os table_laws unstarted events rest at_first final.1
      stopped.1 final.0 stopped.0 refl refl listens refl level 3

abbrev of_session : Option Session → Session
of_session none = record {
  context = socket_context invalid_fd 0;
  worker = new_worker (socket_context invalid_fd 0);
}
of_session (some x) = x

abbrev second : Session
second = of_session (get_elem? final.0.sessions 1)

there : get_elem? final.0.sessions 1 ≡ some second
unfolding advance_all advance accept_client admit init_listening_socket init_ipv4_socket Worker.step
    Worker.read_at Worker.main_at
there = refl

receiving : second.worker.reader ≡ in_recv (pos 4)
unfolding advance_all advance accept_client admit init_listening_socket init_ipv4_socket Worker.step
    Worker.read_at Worker.main_at
receiving = refl

recv-own_example :
    (n : ℕ) × (pos 4 ≡ pos n)
    × (held_fd second.worker ≡ pos n)
    × (table_os.is_open final.1 n ≡ true)
    × (holders n final.0.sessions ≡ 1)
    × (final.0.server.fd ≢ pos n)
    × (table_os.is_open at_first n ≡ false)
recv-own_example =
    System.Receiving.recv-own table_os table_laws unstarted events at_first final.1 final.0 1 second
      (pos 4) refl quiet refl fine there receiving

start-eq-outcome_test :
    Server.start table_os 3 unstarted at_first
    ≡ outcome table_os
        (advance_all table_os (turns_of_start table_os 4) (new_running unstarted, at_first))
start-eq-outcome_test = System.Alone.start-eq-outcome table_os 3 unstarted at_first

advance_all-Serviced_example :
    (map (λ y. y.context) final.0.sessions ≡ final.0.server.workers)
    × ((ts : List Worker.Turn) × (second.worker ≡ Worker.run ts (new_worker second.context))
        × Serviced final.0.server.server_class ts second.context)
advance_all-Serviced_example =
    System.Traces.advance_all-Serviced table_os unstarted events at_first final.1 final.0 1 second
      refl refl there
