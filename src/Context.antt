-- ===== src/Context.antt =====
-- src/NetUtils/SocketContext.h: what the servers keep of one client.
pub mod Printed
mod Tests
use net_utils.Base.{
  ℕ, zero, suc, Bool, true, false, List, [], ◌++◌, Option, none, some, ℤ, pos, negsuc,
}
use net_utils.Protocol.{codes}
use net_utils.Print.{print, print_int}
use net_utils.Os.{Text, Os}

abbrev pub invalid_fd : ℤ
invalid_fd = negsuc 0

-- `fd == INVALID_FD`
abbrev pub is_invalid : ℤ → Bool
is_invalid (pos n) = false
is_invalid (negsuc zero) = true
is_invalid (negsuc (suc k)) = false

-- The dynamic class of a context, with the `mClientAddr` that it adds: address and port.
pub data ClientAddr : Type 0 where
  plain : ClientAddr
  ipv4 : ℕ → ℕ → ClientAddr
  ipv6 : ℕ → ℕ → ClientAddr

pub record SocketContext : Type 0 where
  pub client_fd : ℤ
  pub port : ℕ
  pub client_addr_str : Text
  pub request : List ℕ
  pub response : List ℕ
  pub client_addr : ClientAddr

-- `SocketContext(fd, port)`
abbrev pub socket_context : ℤ → ℕ → SocketContext
socket_context fd port = record {
  client_fd = fd;
  port = port;
  client_addr_str = [];
  request = [];
  response = [];
  client_addr = plain;
}

abbrev pub ipv4_socket_context : ℤ → ℕ → ClientAddr → SocketContext
ipv4_socket_context fd port addr = record (socket_context fd port) { client_addr = addr }

abbrev pub ipv6_socket_context : ℤ → ℕ → ClientAddr → SocketContext
ipv6_socket_context fd port addr = record (socket_context fd port) { client_addr = addr }

unfoldable pub to_string : SocketContext → Text
to_string context =
    codes "client socket context info"
    ++ (codes ", fd: "
        ++ (print_int context.client_fd
            ++ (codes ", port:"
                ++ (print context.port ++ (codes ", address:" ++ context.client_addr_str)))))

-- `std::dynamic_pointer_cast<IPV4SocketContext>(context)`, with `none` for the null pointer.
abbrev cast_by : ClientAddr → SocketContext → Option SocketContext
cast_by plain context = none
cast_by (ipv4 a p) context = some context
cast_by (ipv6 a p) context = none

abbrev pub as_ipv4 : SocketContext → Option SocketContext
as_ipv4 context = cast_by context.client_addr context

-- `~SocketContext()`
abbrev pub destroy : {World : Type 0} → Os World → SocketContext → World → World
destroy os context w = elim (is_invalid context.client_fd) [
  | true ↦ w
  | false ↦ os.close context.client_fd w
]
