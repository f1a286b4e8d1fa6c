-- ===== src/Program/Tests.antt =====
-- Command lines.
use net_utils.Base.{◌≡◌, refl, true, false, [], ◌∷◌, some, negsuc, inr, arith}
use net_utils.Protocol.{codes}
use net_utils.Os.Table.{Table, table_os, table_laws}
use net_utils.Print.{print}
use net_utils.Handle.{ipv4_handle, ipv6_handle}
use net_utils.TcpServer.{TcpServer, new_tcp_server_at}
use net_utils.TcpServer
use net_utils.Program
use net_utils.Program.{atoi, launch, echo6_server}

atoi_int : atoi (codes " \t-12x") ≡ negsuc 11
unfolding atoi
atoi_int = refl

-- The port 65537 is 1.
launch_port_example :
    launch (codes "echo" ∷ print 65537 ∷ [])
    ≡ inr (new_tcp_server_at ipv4_handle [] 1, new_tcp_server_at ipv6_handle [] 1)
launch_port_example = Program.Launch.launch_port (codes "echo") 65537 [] (omega arith)

abbrev at_first : Table
at_first = record {
  fds = true ∷ true ∷ true ∷ [];
  bind_ok = true;
  clients = (1, 10) ∷ (2, 20) ∷ [];
}

abbrev taken : Table
taken = record at_first { fds = true ∷ true ∷ true ∷ true ∷ [] }

launch_host_example :
    (s4 : TcpServer) × (s6 : TcpServer) × (launch (codes "echo" ∷ codes "9001" ∷ codes "host" ∷ [])
      ≡ inr (s4, s6))
    × (w' : Table) × (TcpServer.start table_os 1 s6 at_first ≡ some (false, s6, w'))
    × (table_os.is_open w' 3 ≡ true)
launch_host_example =
    Program.Launch.launch_host table_os table_laws (codes "echo") (codes "9001") b'h' (codes "ost")
      [] 0 3 at_first taken taken taken refl refl refl refl
