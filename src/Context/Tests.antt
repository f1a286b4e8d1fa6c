-- ===== src/Context/Tests.antt =====
-- The text of a context.
use net_utils.Base.{◌≡◌, refl, [], some, pos, negsuc}
use net_utils.Protocol.{codes}
use net_utils.Print.{print_int}
use net_utils.Context
use net_utils.Context.{SocketContext, ipv4, to_string}
use net_utils.Context.Printed.{read_context}

abbrev local : SocketContext
local = record {
  client_fd = pos 12;
  port = 4001;
  client_addr_str = codes "127.0.0.1";
  request = [];
  response = [];
  client_addr = ipv4 0x7f00_0001 4001;
}

local_text :
    to_string local ≡ codes "client socket context info, fd: 12, port:4001, address:127.0.0.1"
unfolding to_string print_int
local_text = refl

closed_text :
    to_string (record local { client_fd = negsuc 0 })
    ≡ codes "client socket context info, fd: -1, port:4001, address:127.0.0.1"
unfolding to_string print_int
closed_text = refl

read_context-to_string_test :
    read_context (to_string local) ≡ some (pos 12, 4001, codes "127.0.0.1")
read_context-to_string_test = Context.Printed.read_context-to_string local
