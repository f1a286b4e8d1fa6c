-- ===== src/Server.antt =====
-- src/NetUtils/services/tcp/multi_threads/ThreadsTcpBroServer.{h,cpp}, ThreadsTcp6BroServer.{h,cpp}
-- and ThreadsTcpBroProcessor.cpp: the two servers, with what they inherit from
-- ITcpBrokerServerEngine.cpp (`start`, `stop`) and IEngine.cpp (`restart`).
pub mod Accepting
pub mod Lifecycle
pub mod Operations
pub mod Counters
mod Tests
use net_utils.Base.{
  ℕ, zero, suc, Bool, true, false, List, [], ◌∷◌, ◌++◌, Option, none, some, ℤ, pos, is_neg,
  if◌then◌else◌,
}
use net_utils.Protocol.{pt_tcp_ipv4, pt_tcp_ipv6}
use net_utils.Context.{
  SocketContext, ClientAddr, ipv4, ipv6, ipv4_socket_context, ipv6_socket_context, is_invalid,
}
use net_utils.Os.{Text, Accepted, Os}
use net_utils.Engine.{Engine, new_engine, new_engine_at}
use net_utils.Engine.Init.{init_listening_socket}

-- Which of the two classes the server has.
pub data ServerClass : Type 0 where
  threads_tcp threads_tcp6 : ServerClass

-- An engine with its class, and the contexts for which `mClientProcessor` has started a worker
-- thread, in the order in which it did.
pub record Server : Type 0 where
  pub engine : Engine
  pub open engine use *
  pub server_class : ServerClass
  pub workers : List SocketContext

-- `ThreadsTcpBroServer(tag)` and `ThreadsTcpBroServer(tag, ip, port)`
unfoldable pub threads_tcp_bro_server : Text → ℕ → Server
unfolding new_engine
threads_tcp_bro_server tag garbage = record {
  engine = new_engine tag pt_tcp_ipv4 garbage;
  server_class = threads_tcp;
  workers = [];
}

unfoldable pub threads_tcp_bro_server_at : Text → Text → ℕ → ℕ → Server
unfolding new_engine_at
threads_tcp_bro_server_at tag ip port garbage = record {
  engine = new_engine_at tag pt_tcp_ipv4 ip (pos port) garbage;
  server_class = threads_tcp;
  workers = [];
}

-- `ThreadsTcp6BroServer(tag)` and `ThreadsTcp6BroServer(tag, ip, port)`
unfoldable pub threads_tcp6_bro_server : Text → ℕ → Server
unfolding new_engine
threads_tcp6_bro_server tag garbage = record {
  engine = new_engine tag pt_tcp_ipv6 garbage;
  server_class = threads_tcp6;
  workers = [];
}

unfoldable pub threads_tcp6_bro_server_at : Text → Text → ℕ → ℕ → Server
unfolding new_engine_at
threads_tcp6_bro_server_at tag ip port garbage = record {
  engine = new_engine_at tag pt_tcp_ipv6 ip (pos port) garbage;
  server_class = threads_tcp6;
  workers = [];
}

-- `ThreadsTcpBroProcessor::process`: a detached thread runs a worker on the context.
unfoldable pub process : SocketContext → Server → Server × Bool
process context s = (record s { workers = s.workers ++ context ∷ [] }, true)

-- Under `mRWLock`.
unfoldable pub enqueue : SocketContext → Server → Server
enqueue context s = record s {
  engine = record s.engine { socket_context_queue = s.socket_context_queue ++ context ∷ [] };
}

module _ {World : Type 0} (os : Os World) where
  -- The context that `run` of the class makes of a client that was accepted.
  abbrev pub context_for : ServerClass → Accepted → SocketContext
  context_for threads_tcp a =
      record (ipv4_socket_context a.fd (os.ntohs a.port) (ipv4 a.addr a.port)) {
        client_addr_str = os.inet_ntoa a.addr;
      }
  context_for threads_tcp6 a =
      record (ipv6_socket_context a.fd (os.ntohs a.port) (ipv6 a.addr a.port)) {
        client_addr_str = os.inet_ntop a.addr;
      }

  -- One client: the result of `process` is only logged.
  unfoldable pub admit : Accepted → Server → Server
  unfolding process enqueue
  admit a s = let context = context_for s.server_class a in (process context (enqueue context s)).0

  -- One round of `run()`: a client is admitted, or `accept` fails.
  unfoldable pub accept_client : Server → World → Option Server × World
  accept_client s w =
      let (a, w') = os.accept s.fd w in if is_neg a.fd then (none, w') else (some (admit a s), w')

  -- `run()`: `none` says that the server still waits for clients after `fuel` of them.
  unfoldable pub run : ℕ → Server → World → Option (Bool × Server × World)
  unfolding accept_client
  run zero s w = none
  run (suc fuel) s w =
      let (r, w') = accept_client s w in
      elim r [ none ↦ some (false, s, w') | some s' ↦ run fuel s' w' ]

  -- `if (!run()) return false; return true;`
  abbrev pub run_result : Option (Bool × Server × World) → Option (Bool × Server × World)
  run_result none = none
  run_result (some (false, s, w)) = some (false, s, w)
  run_result (some (true, s, w)) = some (true, s, w)

  abbrev pub start_with : ℕ → Server → Option Engine × World → Option (Bool × Server × World)
  start_with fuel s (none, w) = some (false, s, w)
  start_with fuel s (some e, w) = run_result (run fuel (record s { engine = e }) w)

  unfoldable pub start : ℕ → Server → World → Option (Bool × Server × World)
  start fuel s w = elim (is_invalid s.fd) [
    | true ↦ start_with fuel s (init_listening_socket os s.engine w)
    | false ↦ run_result (run fuel s w)
  ]

  -- `mFd` keeps its value.
  unfoldable pub stop : Server → World → World
  stop s w = elim (is_invalid s.fd) [ true ↦ w | false ↦ os.close s.fd w ]

  -- `IEngine::restart`
  unfoldable pub restart : ℕ → Server → World → Option (Bool × Server × World)
  restart fuel s w = run_result (start fuel s (stop s w))
