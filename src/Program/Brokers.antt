-- ===== src/Program/Brokers.antt =====
-- The IPv6 broker server of ThreadsEchoEngine.cpp.
use net_utils.Base.{ℕ, ◌<◌, ◌≡◌, refl, ap, ◌∙◌, false, List, length, All, some}
use net_utils.Os.{Os}
use net_utils.Engine.{Engine}
use net_utils.Engine.Init.{init_listening_socket}
use net_utils.Server
use net_utils.Server.{Server, start_with, run_result}
use net_utils.Server.Accepting.{FailsAt}
use net_utils.Worker.{Turn}
use net_utils.System.Broker.{Untouched, tcp6_run-Untouched}
use net_utils.Program.{echo6_server}

-- The IPv6 server of the program, started once its socket can be set up: if `accept` fails after k
-- clients (and the fuel is more than k), `start` returns false with k workers, none of which reads,
-- sends or closes, whatever order its threads run in.
echo6_server-Untouched :
    {World : Type 0} (os : Os World) (k fuel garbage : ℕ) (e : Engine) (w w1 : World)
    (turns : List Turn)
    → k < fuel
    → init_listening_socket os (echo6_server garbage).engine w ≡ (some e, w1)
    → FailsAt os k e.fd w1
    → (s' : Server) × (w' : World) × (Server.start os fuel (echo6_server garbage) w
        ≡ some (false, s', w'))
      × (length s'.workers ≡ k)
      × All (Untouched turns) s'.workers
unfolding Server.start Server.threads_tcp6_bro_server_at
echo6_server-Untouched os k fuel garbage e w w1 turns lt made fails =
    let (s', w', ran, count, all) =
      tcp6_run-Untouched os k fuel (record (echo6_server garbage) { engine = e }) w1 turns lt fails
        refl refl in
    (
      s',
      w',
      ap (start_with os fuel (echo6_server garbage)) made ∙ ap (run_result os) ran,
      count,
      all,
    )
