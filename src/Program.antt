-- ===== src/Program.antt =====
-- The two programs: src/NetUtils/services/tcp/multi_threads/ThreadsEcho.cpp starts an IPv4 and an IPv6
-- plain server, src/NetUtils/services/tcp/multi_threads/utils/ThreadsEchoEngine.cpp one of each broker
-- server. Each server's `start` runs in a thread of its own, and `main` joins both.
pub mod Launch
pub mod Brokers
pub mod Threads
pub mod Servers
pub mod Audit
pub mod SharedPlain
pub mod Shared
pub mod Joining
pub mod Lifetimes
mod Tests
use net_utils.Base.{
  ℕ, ◌+◌, ◌-◌, ◌*◌, List, [], ◌∷◌, Bool, ltb, ◌||◌, ◌==◌, if◌then◌else◌, zero, suc, ℤ, pos, negsuc,
  to_unsigned, Option, none, some, ◌⊎◌, inl, inr,
}
use net_utils.Protocol.{codes}
use net_utils.Os.{Text, Os}
use net_utils.Handle.{ipv4_handle, ipv6_handle}
use net_utils.TcpServer.{TcpServer, new_tcp_server, new_tcp_server_at}
use net_utils.Server.{Server, threads_tcp_bro_server_at, threads_tcp6_bro_server_at}

abbrev pub is_space : ℕ → Bool
is_space c = c == 32 || (c == 9 || (c == 10 || (c == 11 || (c == 12 || c == 13))))

-- The number that the digits at the front spell, behind n.
pub number : ℕ → Text → ℕ
number n [] = n
number n (c ∷ s) =
    let rest = number (n * 10 + (c - b'0')) s in if ltb c b'0' || ltb b'9' c then n else rest

abbrev pub negated : ℕ → ℤ
negated zero = pos 0
negated (suc n) = negsuc n

pub signed : Text → ℤ
unfolding number
signed [] = pos 0
signed (c ∷ s) =
    if c == b'-'
    then negated (number 0 s)
    else if c == b'+'
    then pos (number 0 s)
    else pos (number 0 (c ∷ s))

-- `atoi`, for numbers that an `int` holds.
pub atoi : Text → ℤ
unfolding signed
atoi [] = pos 0
atoi (c ∷ s) = let rest = atoi s in if is_space c then rest else signed (c ∷ s)

-- The conversion to the `uint16_t` of the constructors.
abbrev pub port_of : Text → ℕ
port_of text = to_unsigned 16 (atoi text)

-- `main` of ThreadsEcho.cpp up to its threads: the value that it returns, or the servers that it
-- starts.
unfoldable pub launch : List Text → ℤ ⊎ (TcpServer × TcpServer)
launch [] = inl (negsuc 0)
launch (prog ∷ []) = inl (negsuc 0)
launch (prog ∷ port ∷ []) =
    inr (new_tcp_server ipv4_handle (port_of port), new_tcp_server ipv6_handle (port_of port))
launch (prog ∷ port ∷ host ∷ more) = inr (
  new_tcp_server_at ipv4_handle host (port_of port),
  new_tcp_server_at ipv6_handle host (port_of port),
)

-- The servers of ThreadsEchoEngine.cpp; the last argument is what the memory of the engine held.
abbrev pub echo_server : ℕ → Server
echo_server garbage =
    threads_tcp_bro_server_at (codes "echo_engine") (codes "127.0.0.1") 9001 garbage

abbrev pub echo6_server : ℕ → Server
echo6_server garbage = threads_tcp6_bro_server_at (codes "echo_engine") (codes "::1") 9001 garbage
