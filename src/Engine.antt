-- ===== src/Engine.antt =====
-- src/NetUtils/services/tcp/ITcpBrokerServerEngine.h and ITcpBrokerServerEngine.cpp: the state of a
-- server engine, its constructors, and the members that make no system call.
pub mod Init
pub mod Printed
mod Tests
use net_utils.Base.{ℕ, Bool, true, false, List, [], ◌++◌, ℤ, pos, if◌then◌else◌}
use net_utils.Protocol
use net_utils.Protocol.{ProtocolType, codes}
use net_utils.Print.{print_int}
use net_utils.Context.{SocketContext, invalid_fd, is_invalid}
use net_utils.Os.{Text}

pub record Engine : Type 0 where
  pub tag : Text
  pub protocol_type : ProtocolType
  pub ip : Text
  pub port : ℤ
  pub fd : ℤ
  pub is_running : Bool
  pub is_dump_request : Bool
  pub total_send_bytes : ℤ
  pub total_recv_bytes : ℤ
  pub connections : ℕ
  pub max_connections : ℕ
  pub socket_context_queue : List SocketContext

-- `ITcpBrokerServerEngine(tag, type, ip, port)`. No constructor sets `mMaxConnections`: the last
-- argument is what the memory held.
unfoldable pub new_engine_at : Text → ProtocolType → Text → ℤ → ℕ → Engine
new_engine_at tag type ip port garbage = record {
  tag = tag;
  protocol_type = type;
  ip = ip;
  port = port;
  fd = invalid_fd;
  is_running = false;
  is_dump_request = false;
  total_send_bytes = pos 0;
  total_recv_bytes = pos 0;
  connections = 0;
  max_connections = garbage;
  socket_context_queue = [];
}

-- `ITcpBrokerServerEngine(tag, type)`
unfoldable pub new_engine : Text → ProtocolType → ℕ → Engine
unfolding new_engine_at
new_engine tag type garbage = new_engine_at tag type [] (pos 0) garbage

-- `getTag()` returns what the constructor of the base class was given.
unfoldable pub to_string : Engine → Text
to_string e =
    codes "name:"
    ++ (e.tag
        ++ (codes "; ip:"
            ++ (e.ip
                ++ (codes "; port:"
                    ++ (print_int e.port
                        ++ (codes "; fd:"
                            ++ (print_int e.fd
                                ++ (codes "; protocol:"
                                    ++ Protocol.to_string e.protocol_type))))))))

unfoldable pub is_started : Engine → Bool
is_started e = e.is_running

unfoldable pub enable_dump_request : Engine → Engine
enable_dump_request e = record e { is_dump_request = true }

unfoldable pub disable_dump_request : Engine → Engine
disable_dump_request e = record e { is_dump_request = false }

unfoldable pub is_dump_request_enabled : Engine → Bool
is_dump_request_enabled e = e.is_dump_request

-- The source assigns when the engine has a socket already.
unfoldable pub set_listening_socket : ℤ → Engine → Engine
set_listening_socket fd e = if is_invalid e.fd then e else record e { fd = fd }

unfoldable pub get_listen_socket : Engine → ℤ
get_listen_socket e = e.fd

unfoldable pub set_listening_address : Text → Engine → Engine
set_listening_address ip e = record e { ip = ip }

unfoldable pub get_listening_address : Engine → Text
get_listening_address e = e.ip

unfoldable pub set_listening_port : ℤ → Engine → Engine
set_listening_port port e = record e { port = port }

unfoldable pub get_listening_port : Engine → ℤ
get_listening_port e = e.port

unfoldable pub get_connections : Engine → ℕ
get_connections e = e.connections

unfoldable pub get_max_connections : Engine → ℕ
get_max_connections e = e.max_connections
