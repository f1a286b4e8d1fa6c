-- ===== src/System/Starting.antt =====
-- A broker server while its threads run, where the set-up of the listening socket
-- (ITcpBrokerServerEngine.cpp) is one step for each system call.
pub mod Ledger
use net_utils.Base.{ℕ, Bool, true, false, if◌then◌else◌, List, [], ◌∷◌, ℤ}
use net_utils.Context.{is_invalid}
use net_utils.Os.{Os}
use net_utils.Server.{Server}
use net_utils.Worker.{Turn}
use net_utils.System.Threads.{
  Phase, created, accepting, unset, left, Running, Event, serves, turns, start_at,
}
use net_utils.System.Lifetimes.{
  Process, new_process, Happening, of_thread, thread_ends, drops_server, happen,
}
use net_utils.System.SetUp.{
  SetUp, calling_socket, setting_reuse, setting_v6only, binding, listening, made, broken_off,
  set_up_step,
}

-- Where `initListeningSocket` stands counts until it is back, and what it has left open after that.
pub record Starting : Type 0 where
  pub process : Process
  pub set_up : SetUp

abbrev pub new_starting : Server → Starting
new_starting s = record { process = new_process s; set_up = calling_socket }

abbrev pub with_running : Starting → Running → Starting
with_running st r = record st { process = record st.process { running = r } }

-- `if (mFd == INVALID_FD) { if (!initListeningSocket()) return false; }`, after one more step.
abbrev pub set_up_turn : {World : Type 0} → Starting → SetUp × World → Starting × World
set_up_turn st (made fd, w) = (
  record (with_running st (record st.process.running {
    server = record st.process.running.server {
      engine = record st.process.running.server.engine { fd = fd };
    };
    phase = accepting;
  })) { set_up = made fd },
  w,
)
set_up_turn st (broken_off fd, w) = (
  record (with_running st (record st.process.running { phase = unset })) { set_up = broken_off fd },
  w,
)
set_up_turn st (pc, w) = (record st { set_up = pc }, w)

module _ {World : Type 0} (os : Os World) where
  abbrev pub ran : Starting → Running × World → Starting × World
  ran st (r, w) = (with_running st r, w)

  -- One step of the thread that has called `start`.
  abbrev pub start_step : Phase → Starting → World → Starting × World
  start_step created st w =
      if is_invalid st.process.running.server.fd
      then set_up_turn st (set_up_step os st.process.running.server.engine st.set_up w)
      else (with_running st (record st.process.running { phase = accepting }), w)
  start_step accepting st w = ran st (start_at os accepting st.process.running w)
  start_step unset st w = (st, w)
  start_step left st w = (st, w)

  abbrev pub of_process : Starting → Process × World → Starting × World
  of_process st (p, w) = (record st { process = p }, w)

  unfoldable pub starting_step : Happening → Starting × World → Starting × World
  starting_step (of_thread serves) (st, w) = start_step st.process.running.phase st w
  starting_step (of_thread (turns i t)) (st, w) =
      of_process st (happen os (of_thread (turns i t)) (st.process, w))
  starting_step (thread_ends i) (st, w) = of_process st (happen os (thread_ends i) (st.process, w))
  starting_step drops_server (st, w) = of_process st (happen os drops_server (st.process, w))
