-- ===== src/TcpServer.antt =====
-- src/NetUtils/services/tcp/TcpServer.{h,cpp}, and the sockets and accept loops of
-- src/NetUtils/services/tcp/multi_threads/IPV{4,6}ThreadsTcpServer.cpp.
pub mod Starting
pub mod Sockets
pub mod Failing
pub mod Accepting
pub mod Options
mod Tests
use net_utils.Base.{
  ℕ, zero, suc, Bool, true, false, List, [], ◌∷◌, ◌++◌, Option, none, some, ℤ, is_neg,
  if◌then◌else◌,
}
use net_utils.Context.{invalid_fd, is_invalid}
use net_utils.Os.{
  Text, Accepted, Os, af_inet, af_inet6, so_reuseaddr, ipv6_v6only, so_rcvtimeo, so_sndtimeo, in4,
  in6,
}
use net_utils.Engine.Init.{Attempt, ◌>>=◌, ◌>>◌, done, call, back_log, ipv4_address, ipv6_address}
use net_utils.Handle.{Handle, new_handle, HandleClass, ipv4_handle, ipv6_handle}

-- `SetSockOptCBsVectorPtr`: the vector holds pointers to functions, here by number, and each pointer
-- may be null.
abbrev pub SetSockOptCbs : Type 0
SetSockOptCbs = Option (List (Option ℕ))

pub record TcpServer : Type 0 where
  -- IPV4ThreadsTcpServer or IPV6ThreadsTcpServer.
  pub handle_class : HandleClass
  pub ip : Text
  pub port : ℕ
  pub fd : ℤ
  pub listen_sock_cbs : SetSockOptCbs
  pub accept_sock_cbs : SetSockOptCbs
  -- The clients for which a detached thread runs `handleClient`, in the order of arrival.
  pub handles : List Accepted

abbrev pub new_tcp_server_at : HandleClass → Text → ℕ → TcpServer
new_tcp_server_at c ip port = record {
  handle_class = c;
  ip = ip;
  port = port;
  fd = invalid_fd;
  listen_sock_cbs = none;
  accept_sock_cbs = none;
  handles = [];
}

abbrev pub new_tcp_server : HandleClass → ℕ → TcpServer
new_tcp_server c port = new_tcp_server_at c [] port

abbrev pub set_listen_sock_cbs : SetSockOptCbs → TcpServer → TcpServer
set_listen_sock_cbs cbs s = record s { listen_sock_cbs = cbs }

abbrev pub set_accept_sock_cbs : SetSockOptCbs → TcpServer → TcpServer
set_accept_sock_cbs cbs s = record s { accept_sock_cbs = cbs }

-- `handleClient(context)`: the handle whose `doWork` the detached thread runs.
unfoldable pub handle_client : HandleClass → Accepted → Handle
handle_client c a = new_handle c a.fd

module _ {World : Type 0} (os : Os World) where
  -- `initSocket` of the IPv4 class: the new value of `mFd`, or `none` for false.
  unfoldable pub init_socket4 : TcpServer → Attempt World ℤ
  init_socket4 s = do
    svr_sock ← call (os.socket af_inet)
    call (os.setsockopt svr_sock so_reuseaddr)
    call (os.bind svr_sock (in4 (ipv4_address os s.ip) (os.htons s.port)))
    call (os.listen svr_sock back_log)
    done svr_sock

  -- The rest of `initSocket` of the IPv6 class. For an address that `inet_pton` does not know it
  -- returns -1, which is true, and `mFd` keeps its value.
  abbrev pub bind_socket6 : TcpServer → ℤ → Option ℕ → Attempt World ℤ
  bind_socket6 s svr_sock none = done s.fd
  bind_socket6 s svr_sock (some address) = do
    call (os.bind svr_sock (in6 address (os.htons s.port)))
    call (os.listen svr_sock back_log)
    done svr_sock

  unfoldable pub init_socket6 : TcpServer → Attempt World ℤ
  init_socket6 s = do
    svr_sock ← call (os.socket af_inet6)
    call (os.setsockopt svr_sock so_reuseaddr)
    call (os.setsockopt svr_sock ipv6_v6only)
    bind_socket6 s svr_sock (ipv6_address os s.ip)

  abbrev pub init_socket : HandleClass → TcpServer → Attempt World ℤ
  init_socket ipv4_handle s = init_socket4 s
  init_socket ipv6_handle s = init_socket6 s

  -- The two time limits that the IPv4 class sets on a client's socket.
  unfoldable pub set_timeouts : HandleClass → ℤ → Attempt World ℤ
  set_timeouts ipv4_handle client_socket = do
    call (os.setsockopt client_socket so_rcvtimeo)
    call (os.setsockopt client_socket so_sndtimeo)
  set_timeouts ipv6_handle client_socket = done client_socket

  -- `none`: `run` returns false.
  abbrev pub serve : TcpServer → Accepted → Option ℤ × World → Option TcpServer × World
  serve s a (none, w) = (none, w)
  serve s a (some r, w) = (some (record s { handles = s.handles ++ a ∷ [] }), w)

  -- One round of `run`: `none` says that it returns false.
  unfoldable pub accept_client : TcpServer → World → Option TcpServer × World
  accept_client s w =
      let (a, w') = os.accept s.fd w in
      if is_neg a.fd then (none, w') else serve s a (set_timeouts s.handle_class a.fd w')

  -- `run()`: `none` says that the server still waits for clients after `fuel` of them.
  unfoldable pub run : ℕ → TcpServer → World → Option (Bool × TcpServer × World)
  run zero s w = none
  run (suc fuel) s w =
      let (r, w') = accept_client s w in
      elim r [ none ↦ some (false, s, w') | some s' ↦ run fuel s' w' ]

  abbrev pub start_with : ℕ → TcpServer → Option ℤ × World → Option (Bool × TcpServer × World)
  start_with fuel s (none, w) = some (false, s, w)
  start_with fuel s (some fd, w) = run fuel (record s { fd = fd }) w

  unfoldable pub start : ℕ → TcpServer → World → Option (Bool × TcpServer × World)
  start fuel s w = elim (is_invalid s.fd) [
    | true ↦ start_with fuel s (init_socket s.handle_class s w)
    | false ↦ some (true, s, w)
  ]

  -- It always returns true.
  unfoldable pub stop : TcpServer → World → Bool × TcpServer × World
  stop s w = (true, record s { fd = invalid_fd }, os.close s.fd w)
