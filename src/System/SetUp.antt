-- ===== src/System/SetUp.antt =====
-- `initListeningSocket` (src/NetUtils/services/tcp/ITcpBrokerServerEngine.cpp) call by call, for a
-- thread that others can come between. The conversions of address and port go with the call before.
pub mod Alone
pub mod Descriptors
mod Tests
use net_utils.Base.{
  ℕ, zero, suc, Bool, true, false, Option, none, some, ℤ, is_neg, to_unsigned, if◌then◌else◌,
}
use net_utils.Protocol.{ProtocolType, pt_tcp_ipv4, pt_tcp_ipv6, pt_udp_ipv4, pt_udp_ipv6}
use net_utils.Context.{invalid_fd}
use net_utils.Os.{af_inet, af_inet6, so_reuseaddr, ipv6_v6only, SockAddr, in4, in6, Os}
use net_utils.Engine.{Engine}
use net_utils.Engine.Init.{back_log, ipv4_address, ipv6_address}

-- Before a call, or back with `true` or `false`; with `svr_sock`.
pub data SetUp : Type 0 where
  calling_socket : SetUp
  setting_reuse setting_v6only : (fd : ℤ) → SetUp
  binding : (fd : ℤ) (addr : SockAddr) → SetUp
  listening : (fd : ℤ) → SetUp
  made broken_off : (fd : ℤ) → SetUp

-- The descriptor that only `svr_sock` names. A set-up that has broken off has not closed it.
abbrev pub local_fd : SetUp → ℤ
local_fd calling_socket = invalid_fd
local_fd (setting_reuse fd) = fd
local_fd (setting_v6only fd) = fd
local_fd (binding fd addr) = fd
local_fd (listening fd) = fd
local_fd (made fd) = invalid_fd
local_fd (broken_off fd) = fd

-- `if (call(…) < 0) return false;`, and what comes next.
abbrev pub goes_on : {World : Type 0} → ℤ → SetUp → ℤ × World → SetUp × World
goes_on fd pc (r, w) = (if is_neg r then broken_off fd else pc, w)

abbrev pub socket_made : {World : Type 0} → ℤ × World → SetUp × World
socket_made (r, w) = (if is_neg r then broken_off r else setting_reuse r, w)

module _ {World : Type 0} (os : Os World) where
  -- What `init_funs` has for the protocol begins with `socket`; it has nothing for UDP.
  abbrev pub open_socket : ProtocolType → World → SetUp × World
  open_socket pt_tcp_ipv4 w = socket_made (os.socket af_inet w)
  open_socket pt_tcp_ipv6 w = socket_made (os.socket af_inet6 w)
  open_socket pt_udp_ipv4 w = (broken_off invalid_fd, w)
  open_socket pt_udp_ipv6 w = (broken_off invalid_fd, w)

  abbrev pub after_reuse : ProtocolType → Engine → ℤ → SetUp
  after_reuse pt_tcp_ipv4 e fd =
      binding fd (in4 (ipv4_address os e.ip) (os.htons (to_unsigned 16 e.port)))
  after_reuse pt_tcp_ipv6 e fd = setting_v6only fd
  after_reuse pt_udp_ipv4 e fd = broken_off fd
  after_reuse pt_udp_ipv6 e fd = broken_off fd

  abbrev pub after_v6only : Option ℕ → Engine → ℤ → SetUp
  after_v6only none e fd = broken_off fd
  after_v6only (some address) e fd = binding fd (in6 address (os.htons (to_unsigned 16 e.port)))

  unfoldable pub set_up_step : Engine → SetUp → World → SetUp × World
  set_up_step e calling_socket w = open_socket e.protocol_type w
  set_up_step e (setting_reuse fd) w =
      goes_on fd (after_reuse e.protocol_type e fd) (os.setsockopt fd so_reuseaddr w)
  set_up_step e (setting_v6only fd) w =
      goes_on fd (after_v6only (ipv6_address os e.ip) e fd) (os.setsockopt fd ipv6_v6only w)
  set_up_step e (binding fd addr) w = goes_on fd (listening fd) (os.bind fd addr w)
  set_up_step e (listening fd) w = goes_on fd (made fd) (os.listen fd back_log w)
  set_up_step e (made fd) w = (made fd, w)
  set_up_step e (broken_off fd) w = (broken_off fd, w)

  unfoldable pub set_up_run : ℕ → Engine → SetUp × World → SetUp × World
  unfolding set_up_step
  set_up_run zero e c = c
  set_up_run (suc k) e (pc, w) = set_up_run k e (set_up_step e pc w)
