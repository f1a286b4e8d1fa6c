-- ===== src/System/Lifetimes/Tests.antt =====
-- A broker server with two clients, from `start` to its end.
use mathlib.Mathlib.Data.Multiset.Defs.{of_list}
use net_utils.Base.{ℕ, ◌+◌, ◌≡◌, ◌≢◌, refl, true, List, [], ◌∷◌, ◌++◌, map, replicate, All}
use net_utils.Protocol.{codes}
use net_utils.Os.Table.{Table, table_os, table_laws}
use net_utils.Engine.{new_engine_at}
use net_utils.Engine.Init.{init_listening_socket, init_ipv4_socket}
use net_utils.Server.{Server, admit, accept_client, threads_tcp_bro_server_at}
use net_utils.Io.Recv.{got}
use net_utils.Worker
use net_utils.Worker.{mains, reads, writes}
use net_utils.Worker.Closing.{is_fd}
use net_utils.System
use net_utils.System.Threads.{unset, left, Event, serves, turns, advance}
use net_utils.System.Accounts.{one_if, holders}
use net_utils.System.Lifetimes.{
  Process, new_process, Happening, of_thread, thread_ends, drops_server, happen, happen_all,
}
use net_utils.System.Lifetimes.Owners.{bag}
use net_utils.System.Lifetimes.Destructors.{Owned}
use net_utils.System.Lifetimes.Release.{IsOver, wind_up}

abbrev server : Server
server = threads_tcp_bro_server_at (codes "echo_engine") (codes "127.0.0.1") 9001 77

abbrev at_first : Table
at_first = record {
  fds = true ∷ true ∷ true ∷ [];
  bind_ok = true;
  clients = (1, 10) ∷ (2, 20) ∷ [];
}

-- The i-th client hangs up at once, and `doWork` comes back.
abbrev hangs_up : ℕ → List Event
hangs_up i =
    map (turns i) (replicate 4 mains)
    ++ (map (turns i) (replicate 10 (reads (got [])))
        ++ (map (turns i) (replicate 7 (writes [])) ++ map (turns i) (replicate 2 mains)))

-- Both clients come and go, and the first one's thread has ended when `accept` fails.
abbrev events : List Happening
events =
    map of_thread (serves ∷ serves ∷ hangs_up 0)
    ++ (thread_ends 0 ∷ map of_thread (serves ∷ serves ∷ hangs_up 0))

abbrev final : Process × Table
final = happen_all table_os events (new_process server, at_first)

back : final.0.running.phase ≡ left
unfolding happen_all happen advance accept_client admit init_listening_socket init_ipv4_socket
    Worker.step Worker.read_at Worker.write_at Worker.main_at threads_tcp_bro_server_at
    new_engine_at
back = refl

fine : final.0.running.phase ≢ unset
unfolding happen_all happen advance accept_client admit init_listening_socket init_ipv4_socket
    Worker.step Worker.read_at Worker.write_at Worker.main_at threads_tcp_bro_server_at
    new_engine_at
fine e = cc

over : All IsOver final.0.running.sessions
unfolding happen_all happen advance accept_client admit init_listening_socket init_ipv4_socket
    Worker.step Worker.read_at Worker.write_at Worker.main_at threads_tcp_bro_server_at
    new_engine_at
over = (refl, tt)

happen_all-Accounted_example :
    one_if (table_os.is_open final.1 4)
    ≡ one_if (table_os.is_open at_first 4)
      + one_if (is_fd 4 final.0.running.server.fd)
      + holders 4 final.0.queued
      + holders 4 final.0.running.sessions
unfolding threads_tcp_bro_server_at new_engine_at
happen_all-Accounted_example =
    System.Lifetimes.Ledger.happen_all-Accounted table_os table_laws server events at_first final.1
      final.0 refl refl fine 4

happen_all-Owned_example : Owned final.0
unfolding threads_tcp_bro_server_at new_engine_at
happen_all-Owned_example =
    System.Lifetimes.Destructors.happen_all-Owned table_os server events at_first final.1 final.0
      refl refl

wind_up-frees_example :
    (bag (happen_all table_os (wind_up final.0.running.sessions) (final.0, final.1)).0.freed
      ≡ of_list final.0.running.server.workers)
    × ((n : ℕ)
        → one_if (
            table_os.is_open
              (happen_all table_os (wind_up final.0.running.sessions) (final.0, final.1)).1
              n)
          ≡ one_if (table_os.is_open at_first n) + one_if (is_fd n final.0.running.server.fd))
unfolding threads_tcp_bro_server_at new_engine_at
wind_up-frees_example =
    System.Lifetimes.Release.wind_up-frees table_os table_laws server events at_first final.1
      final.0 refl refl refl back over
