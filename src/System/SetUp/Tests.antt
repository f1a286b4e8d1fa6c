-- ===== src/System/SetUp/Tests.antt =====
-- The set-up of an IPv6 server on a system where `bind` fails.
use net_utils.Base.{◌+◌, ◌≡◌, refl, true, false, [], ◌∷◌, some, pos}
use net_utils.Protocol.{codes, pt_tcp_ipv6}
use net_utils.Os.Table.{Table, table_os}
use net_utils.Engine.{Engine, new_engine_at}
use net_utils.Engine.Init.{init_listening_socket}
use net_utils.System
use net_utils.System.SetUp.{calling_socket, broken_off, set_up_step, set_up_run}
use net_utils.System.SetUp.Alone.{set_up_result}

abbrev engine : Engine
engine = new_engine_at (codes "echo_engine") pt_tcp_ipv6 [] (pos 9001) 7

abbrev bind_fails : Table
bind_fails = record { fds = true ∷ true ∷ true ∷ []; bind_ok = false; clients = [] }

set_up_run-eq-init_example :
    (set_up_result engine (set_up_run table_os (2 + 5) engine (calling_socket, bind_fails)).0
      ≡ some (init_listening_socket table_os engine bind_fails).0)
    × ((set_up_run table_os (2 + 5) engine (calling_socket, bind_fails)).1
        ≡ (init_listening_socket table_os engine bind_fails).1)
set_up_run-eq-init_example = System.SetUp.Alone.set_up_run-eq-init table_os engine 2 bind_fails

-- The socket of the set-up that has broken off stays open.
leaves_open : set_up_run table_os 5 engine (calling_socket, bind_fails) ≡ (
  broken_off (pos 3),
  record { fds = true ∷ true ∷ true ∷ true ∷ []; bind_ok = false; clients = [] },
)
unfolding set_up_run set_up_step new_engine_at
leaves_open = refl
