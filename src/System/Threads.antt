-- ===== src/System/Threads.antt =====
-- A broker server while its threads run: the thread that has called `start`
-- (ITcpBrokerServerEngine.cpp, ThreadsTcpBroServer.cpp, ThreadsTcp6BroServer.cpp) and the worker of
-- each client (ThreadsTcpBroWorker.cpp), in any order, on one system.
mod Tests
use net_utils.Base.{
  ℕ, zero, suc, Bool, true, false, List, [], ◌∷◌, ◌++◌, map, length, drop, Option, none, some,
  if◌then◌else◌,
}
use net_utils.Context.{SocketContext, is_invalid, destroy}
use net_utils.Os.{Os}
use net_utils.Engine.{Engine}
use net_utils.Engine.Init.{init_listening_socket}
use net_utils.Server.{Server, accept_client, stop}
use net_utils.Worker.{Worker, new_worker, Turn, step}
use net_utils.System.Descriptors.{close_all}

-- Where the thread stands that has called `start`: before its test of `mFd`, in the loop of `run`,
-- or back, since the set-up of the listening socket or an `accept` failed.
pub data Phase : Type 0 where
  created accepting unset left : Phase

-- A context and the worker that runs on it.
pub record Session : Type 0 where
  pub context : SocketContext
  pub worker : Worker

abbrev pub new_session : SocketContext → Session
new_session context = record { context = context; worker = new_worker context }

-- What the worker has made of its context.
abbrev pub context_now : Session → SocketContext
context_now x = record x.context {
  client_fd = x.worker.client_fd;
  request = x.worker.request;
  response = x.worker.response;
}

-- The sessions stand in the order of `server.workers`.
pub record Running : Type 0 where
  pub server : Server
  pub phase : Phase
  pub sessions : List Session

abbrev pub new_running : Server → Running
new_running s = record { server = s; phase = created; sessions = [] }

-- What `start` has returned.
abbrev pub returned_of : Phase → Option Bool
returned_of created = none
returned_of accepting = none
returned_of unset = some false
returned_of left = some false

-- The sessions of the contexts that were handed to the processor since.
abbrev pub spawned : Server → Server → List Session
spawned s s' = map new_session (drop (length s.workers) s'.workers)

-- Which thread goes on: that of `start`, or one of the i-th worker.
pub data Event : Type 0 where
  serves : Event
  turns : ℕ → Turn → Event

module _ {World : Type 0} (os : Os World) where
  -- The set-up of the listening socket is one step.
  abbrev pub set_up : Running → Option Engine × World → Running × World
  set_up r (none, w) = (record r { phase = unset }, w)
  set_up r (some e, w) =
      (record r { server = record r.server { engine = e }; phase = accepting }, w)

  -- One step of `start`: a round of `run` is one step.
  abbrev pub admitted : Running → Option Server × World → Running × World
  admitted r (none, w) = (record r { phase = left }, w)
  admitted r (some s, w) = (record r { server = s; sessions = r.sessions ++ spawned r.server s }, w)

  abbrev pub start_at : Phase → Running → World → Running × World
  start_at created r w =
      if is_invalid r.server.fd
      then set_up r (init_listening_socket os r.server.engine w)
      else (record r { phase = accepting }, w)
  start_at accepting r w = admitted r (accept_client os r.server w)
  start_at unset r w = (r, w)
  start_at left r w = (r, w)

  -- A step of a worker; the system closes what the worker closes.
  abbrev pub session_step : Turn → Session → World → Session × World
  session_step t x w =
      let worker' = step t x.worker in
      (record x { worker = worker' }, close_all os (drop (length x.worker.closes) worker'.closes) w)

  abbrev pub nth_step : ℕ → Turn → List Session → World → List Session × World
  nth_step i t [] w = ([], w)
  nth_step zero t (x ∷ xs) w = let (x', w') = session_step t x w in (x' ∷ xs, w')
  nth_step (suc i) t (x ∷ xs) w = let (xs', w') = nth_step i t xs w in (x ∷ xs', w')

  unfoldable pub advance : Event → Running × World → Running × World
  advance serves (r, w) = start_at r.phase r w
  advance (turns i t) (r, w) =
      let (xs, w') = nth_step i t r.sessions w in (record r { sessions = xs }, w')

  unfoldable pub advance_all : List Event → Running × World → Running × World
  unfolding advance
  advance_all [] c = c
  advance_all (e ∷ events) c = advance_all events (advance e c)

  -- The destructors of the contexts.
  abbrev pub destroy_all : List Session → World → World
  destroy_all [] w = w
  destroy_all (x ∷ xs) w = destroy_all xs (destroy os (context_now x) w)
