-- ===== src/Protocol.antt =====
-- src/NetUtils/protocol.h: the protocols and their names.
use Prim.Native.Char.{code}
use Prim.Native.String.{String}
use net_utils.Base.{ℕ, List, [], ◌∷◌}

pub data ProtocolType : Type 0 where
  pt_tcp_ipv4 pt_tcp_ipv6 pt_udp_ipv4 pt_udp_ipv6 : ProtocolType

abbrev pub codes : String → List ℕ
codes String.[] = []
codes (String.◌∷◌ c s) = code c ∷ codes s

-- Every value of the enumeration has a case, so the text behind the switch is never returned.
unfoldable pub to_string : ProtocolType → List ℕ
to_string pt_tcp_ipv4 = codes "tcp"
to_string pt_tcp_ipv6 = codes "tcp6"
to_string pt_udp_ipv4 = codes "udp"
to_string pt_udp_ipv6 = codes "udp6"
