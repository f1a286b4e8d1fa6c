-- ===== src/Engine/Tests.antt =====
-- The text of an engine.
use net_utils.Base.{◌≡◌, refl, some, pos, arith}
use net_utils.Protocol.{ProtocolType, pt_tcp_ipv6, codes}
use net_utils.Protocol
use net_utils.Print.{print_int}
use net_utils.Engine
use net_utils.Engine.{Engine, new_engine_at, to_string}
use net_utils.Engine.Printed.{read_engine}

abbrev local : Engine
local = new_engine_at (codes "echo") pt_tcp_ipv6 (codes "::1") (pos 9001) 0

local_text : to_string local ≡ codes "name:echo; ip:::1; port:9001; fd:-1; protocol:tcp6"
unfolding to_string print_int Protocol.to_string new_engine_at
local_text = refl

read_engine-to_string_test :
    read_engine (to_string local)
    ≡ some (local.tag, local.ip, local.port, local.fd, local.protocol_type)
unfolding new_engine_at
read_engine-to_string_test =
    Engine.Printed.read_engine-to_string local
      ((λ e. omega arith), ((λ e. omega arith), ((λ e. omega arith), ((λ e. omega arith), tt))))
      ((λ e. omega arith), ((λ e. omega arith), ((λ e. omega arith), tt)))
