-- ===== src/Engine/Init.antt =====
-- src/NetUtils/services/tcp/ITcpBrokerServerEngine.cpp: making the listening socket, outside
-- Windows.
pub mod Descriptors
pub mod Members
use net_utils.Base.{
  ℕ, List, [], ◌∷◌, Bool, true, false, Option, none, some, ℤ, pos, negsuc, is_neg, to_unsigned,
  if◌then◌else◌,
}
use net_utils.Protocol.{ProtocolType, pt_tcp_ipv4, pt_tcp_ipv6, pt_udp_ipv4, pt_udp_ipv6}
use net_utils.Os.{
  Text, Family, af_inet, af_inet6, SockOpt, so_reuseaddr, ipv6_v6only, SockAddr, in4, in6, Os,
}
use net_utils.Engine.{Engine}

abbrev pub back_log : ℕ
back_log = 0xff

-- A member that may end early by `return false`, with the system as it is then.
abbrev pub Attempt : Type 0 → Type 0 → Type 0
Attempt World A = World → Option A × World

abbrev pub next : {World A B : Type 0} → Option A × World → (A → Attempt World B) → Option B × World
next (none, w) f = (none, w)
next (some a, w) f = f a w

infixl 5 ◌>>=◌ ◌>>◌
abbrev pub ◌>>=◌ : {World A B : Type 0} → Attempt World A → (A → Attempt World B) → Attempt World B
◌>>=◌ m f w = next (m w) f

abbrev pub ◌>>◌ : {World A B : Type 0} → Attempt World A → Attempt World B → Attempt World B
m >> k = m >>= λ _. k

abbrev pub done : {World A : Type 0} → A → Attempt World A
done a w = (some a, w)

abbrev pub or_fail : {World A : Type 0} → Option A → Attempt World A
or_fail o w = (o, w)

abbrev pub checked : {World : Type 0} → ℤ × World → Option ℤ × World
checked (r, w) = (if is_neg r then none else some r, w)

-- `if (call(…) < 0) return false;`
abbrev pub call : {World : Type 0} → (World → ℤ × World) → Attempt World ℤ
call op w = checked (op w)

module _ {World : Type 0} (os : Os World) where
  -- `mIP.empty() ? INADDR_ANY : inet_addr(mIP.c_str())`
  abbrev pub ipv4_address : Text → ℕ
  ipv4_address [] = 0
  ipv4_address (c ∷ ip) = os.inet_addr (c ∷ ip)

  -- `in6addr_any`, or what `inet_pton` makes of the address.
  abbrev pub ipv6_address : Text → Option ℕ
  ipv6_address [] = some 0
  ipv6_address (c ∷ ip) = os.inet_pton (c ∷ ip)

  unfoldable pub init_ipv4_socket : Engine → Attempt World Engine
  init_ipv4_socket e = do
    svr_sock ← call (os.socket af_inet)
    call (os.setsockopt svr_sock so_reuseaddr)
    call (os.bind svr_sock (in4 (ipv4_address e.ip) (os.htons (to_unsigned 16 e.port))))
    call (os.listen svr_sock back_log)
    done (record e { fd = svr_sock })

  unfoldable pub init_ipv6_socket : Engine → Attempt World Engine
  init_ipv6_socket e = do
    svr_sock ← call (os.socket af_inet6)
    call (os.setsockopt svr_sock so_reuseaddr)
    call (os.setsockopt svr_sock ipv6_v6only)
    address ← or_fail (ipv6_address e.ip)
    call (os.bind svr_sock (in6 address (os.htons (to_unsigned 16 e.port))))
    call (os.listen svr_sock back_log)
    done (record e { fd = svr_sock })

  -- The map `init_funs`: a protocol that is not in it fails.
  abbrev pub init_funs : ProtocolType → Engine → Attempt World Engine
  init_funs pt_tcp_ipv4 e w = init_ipv4_socket e w
  init_funs pt_tcp_ipv6 e w = init_ipv6_socket e w
  init_funs pt_udp_ipv4 e w = (none, w)
  init_funs pt_udp_ipv6 e w = (none, w)

  unfoldable pub init_listening_socket : Engine → Attempt World Engine
  init_listening_socket e = init_funs e.protocol_type e
