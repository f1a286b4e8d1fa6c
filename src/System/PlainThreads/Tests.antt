-- ===== src/System/PlainThreads/Tests.antt =====
-- An IPv4 plain server whose first client is closed by both threads of its handle.
use net_utils.Base.{◌+◌, ◌≤◌, ◌≡◌, refl, true, false, List, [], ◌∷◌, get_elem?, some, pos}
use net_utils.Io.Send.{sent, send_bytes, send_loop}
use net_utils.Io.Recv.{got}
use net_utils.Os.Table.{Table, table_os, table_laws}
use net_utils.Handle.{
  Handle, ipv4_handle, Reading, Writing, new_handle, mains, reads, writes, step, read_at, write_at,
  main_at,
}
use net_utils.Handle
use net_utils.TcpServer
use net_utils.TcpServer.{
  TcpServer, new_tcp_server, init_socket4, set_timeouts, accept_client, handle_client,
}
use net_utils.Worker.Closing.{is_fd}
use net_utils.System
use net_utils.System.Accounts.{one_if}
use net_utils.System.PlainBounds.{lives}
use net_utils.System.PlainAlone.{plain_outcome, plain_turns}
use net_utils.System.PlainSteps.{TakesLimits}
use net_utils.System.SecondClose.{serving}
use net_utils.System.PlainThreads.{
  Plain, new_plain, PlainEvent, serves, turns, plain_advance, plain_advance_all,
}

abbrev at_first : Table
at_first = record {
  fds = true ∷ true ∷ true ∷ [];
  bind_ok = true;
  clients = (1, 10) ∷ (2, 20) ∷ [];
}

-- The client sends a byte and hangs up; sending the byte back breaks off, and both threads stand
-- before `close`.
abbrev both_leave : List Handle.Turn
both_leave =
    mains
    ∷ mains
    ∷ reads (got (7 ∷ []))
    ∷ reads (got [])
    ∷ writes []
    ∷ reads (got [])
    ∷ reads (got [])
    ∷ writes (sent 0 ∷ [])
    ∷ []

abbrev of_first : List Handle.Turn → List PlainEvent
of_first [] = []
of_first (t ∷ ts) = turns 0 t ∷ of_first ts

abbrev events : List PlainEvent
events = serves ∷ serves ∷ of_first both_leave

abbrev first : Handle
first = Handle.run both_leave (new_handle ipv4_handle (pos 4))

abbrev server : TcpServer
server = record (new_tcp_server ipv4_handle 9001) {
  fd = pos 3;
  handles = record { fd = pos 4; addr = 1; port = 10 } ∷ [];
}

abbrev before : Table
before = record {
  fds = true ∷ true ∷ true ∷ true ∷ true ∷ [];
  bind_ok = true;
  clients = (2, 20) ∷ [];
}

abbrev after_next : Table
after_next = record before { clients = [] }

reached :
    plain_advance_all table_os events (new_plain (new_tcp_server ipv4_handle 9001), at_first)
    ≡ (serving server (first ∷ []), before)
unfolding plain_advance_all plain_advance accept_client handle_client set_timeouts init_socket4
    Handle.run step read_at write_at main_at send_bytes send_loop
reached = refl

closing : first.writer ≡ Writing.closing
unfolding Handle.run step read_at write_at main_at send_bytes send_loop
closing = refl

reader_closing : first.reader ≡ Reading.closing
unfolding Handle.run step read_at write_at main_at send_bytes send_loop
reader_closing = refl

held : first.client_fd ≡ pos 4
unfolding Handle.run step read_at write_at main_at send_bytes send_loop
held = refl

limited : set_timeouts table_os ipv4_handle (pos 4) after_next ≡ (some (pos 0), after_next)
unfolding set_timeouts
limited = refl

second_close-shuts_example :
    (p' : Plain) × (w' : Table) × (plain_advance_all table_os
        (turns 0 (reads (got [])) ∷ serves ∷ turns 0 (writes []) ∷ [])
        (serving server (first ∷ []), before)
      ≡ (p', w'))
    × (get_elem? p'.handles 1 ≡ some (new_handle ipv4_handle (pos 4)))
    × (table_os.is_open after_next 4 ≡ true)
    × (table_os.is_open w' 4 ≡ false)
second_close-shuts_example =
    System.SecondClose.second_close-shuts table_os table_laws 4 (got []) server first [] before
      after_next after_next record { fd = pos 4; addr = 2; port = 20 } (pos 0) reader_closing
      closing held refl refl limited

limits : TakesLimits table_os ipv4_handle
unfolding set_timeouts
limits fd w = (pos 0, refl)

plain_advance_all-Bounded_example :
    one_if (table_os.is_open before 4)
    ≤ one_if (table_os.is_open at_first 4) + one_if (is_fd 4 (pos 3)) + lives 4 (first ∷ [])
plain_advance_all-Bounded_example =
    System.Unleaked.plain_advance_all-Bounded table_os table_laws (new_tcp_server ipv4_handle 9001)
      events at_first before (serving server (first ∷ [])) limits refl reached refl 4

start-eq-plain_outcome_test :
    TcpServer.start table_os 3 (new_tcp_server ipv4_handle 9001) at_first
    ≡ plain_outcome table_os (
        plain_advance_all table_os
          (plain_turns table_os 4)
          (new_plain (new_tcp_server ipv4_handle 9001), at_first))
start-eq-plain_outcome_test =
    System.PlainAlone.start-eq-plain_outcome table_os 3 (new_tcp_server ipv4_handle 9001) at_first
