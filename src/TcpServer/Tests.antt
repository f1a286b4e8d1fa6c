-- ===== src/TcpServer/Tests.antt =====
-- Runs of the plain servers on a small system.
use net_utils.Base.{◌≡◌, refl, true, false, [], ◌∷◌, none, some, pos, negsuc}
use net_utils.Os.{Os, OsLaws}
use net_utils.Os.Table.{Table, table_os, table_laws}
use net_utils.TcpServer.Options.{apply_listen_sock_cbs, with_cbs, kept}
use net_utils.Handle.{ipv4_handle}
use net_utils.TcpServer
use net_utils.TcpServer.{
  TcpServer, new_tcp_server, new_tcp_server_at, init_socket4, init_socket6, set_listen_sock_cbs,
  set_timeouts, accept_client, run, start_with, start, stop,
}

-- Descriptors 0 to 2 are open, and two clients will come.
abbrev at_first : Table
at_first = record {
  fds = true ∷ true ∷ true ∷ [];
  bind_ok = true;
  clients = (1, 10) ∷ (2, 20) ∷ [];
}

abbrev echo4 : TcpServer
echo4 = new_tcp_server ipv4_handle 9001

abbrev listening4 : TcpServer
listening4 = record echo4 { fd = pos 3 }

abbrev served4 : TcpServer
served4 = record listening4 {
  handles =
      record { fd = pos 4; addr = 1; port = 10 } ∷ record { fd = pos 5; addr = 2; port = 20 } ∷ [];
}

abbrev busy : Table
busy = record at_first { fds = true ∷ true ∷ true ∷ true ∷ [] }

abbrev served_table : Table
served_table = record {
  fds = true ∷ true ∷ true ∷ true ∷ true ∷ true ∷ [];
  bind_ok = true;
  clients = [];
}

two_clients : run table_os 5 listening4 busy ≡ some (false, served4, served_table)
unfolding run accept_client set_timeouts
two_clients = refl

-- A system that sets no option.
abbrev strict_os : Os Table
strict_os = record table_os { setsockopt = λ fd o t. (negsuc 0, t) }

strict_laws : OsLaws strict_os
strict_laws = record {
  socket_opens = table_laws.socket_opens;
  setsockopt_keeps = λ fd o t m. refl;
  bind_keeps = table_laws.bind_keeps;
  listen_keeps = table_laws.listen_keeps;
  close_shuts = table_laws.close_shuts;
  close_keeps = table_laws.close_keeps;
  close_negative = table_laws.close_negative;
  accept_shut = table_laws.accept_shut;
  accept_negative = table_laws.accept_negative;
  accept_opens = table_laws.accept_opens;
}

unlimited : (set_timeouts strict_os ipv4_handle (pos 4) (strict_os.accept (pos 3) busy).1).0 ≡ none
unfolding set_timeouts
unlimited = refl

run-leaks_test :
    (w' : Table) × (run strict_os 1 listening4 busy ≡ some (false, listening4, w'))
    × (strict_os.is_open w' 4 ≡ true)
run-leaks_test =
    TcpServer.Failing.run-leaks strict_os strict_laws 0 4 listening4 busy refl refl unlimited

-- Two callbacks, which only count in this system, and a null pointer.
counted :
    apply_listen_sock_cbs
      (λ cb sock calls. (true, (cb ∷ calls)))
      (set_listen_sock_cbs (some (some 8 ∷ some 9 ∷ [])) echo4)
      (pos 3)
      []
    ≡ some (9 ∷ 8 ∷ [])
unfolding TcpServer.Options.apply_each
counted = refl

null_cb :
    apply_listen_sock_cbs
      (λ cb sock calls. (true, (cb ∷ calls)))
      (set_listen_sock_cbs (some (some 8 ∷ none ∷ [])) echo4)
      (pos 3)
      []
    ≡ none
unfolding TcpServer.Options.apply_each
null_cb = refl

start-with_cbs_example :
    start table_os 5 (with_cbs (some (none ∷ [])) (some (some 8 ∷ [])) echo4) at_first
    ≡ kept table_os (some (none ∷ [])) (some (some 8 ∷ [])) (start table_os 5 echo4 at_first)
start-with_cbs_example =
    TcpServer.Options.start-with_cbs table_os (some (none ∷ [])) (some (some 8 ∷ [])) 5 echo4
      at_first
