-- ===== src/System/Echo.antt =====
-- `run` of IPV4ThreadsTcpServer.cpp and IPV6ThreadsTcpServer.cpp with the client handles that `handleClient` runs.
use net_utils.Base.{ℕ, ◌<◌, ◌≡◌, ap, ◌∙◌, false, List, [], ◌++◌, get_elem?, some}
use net_utils.Os.{Accepted, Os}
use net_utils.Handle
use net_utils.Handle.{Turn, ipv4_handle}
use net_utils.Handle.Echo.{Honest, Clean}
use net_utils.Handle.Echo.Delivery.{run-echoes_either}
use net_utils.TcpServer
use net_utils.TcpServer.{TcpServer, handle_client}
use net_utils.TcpServer.Accepting.{FailsAt, arrivals, after, with_handles, run-with_handles}

-- If the `accept` after k clients fails, each of which has taken its time limits (and the fuel is
-- more than k), `run` of a plain server of either class with no handle yet returns false and has a
-- handle for the i-th of these clients; whatever order its threads run in, what it has put on the
-- wire is a prefix of what it received. No `send` fails or takes more than it was offered, and no
-- message has 2^64 bytes; for the IPv6 class each `recv` takes fewer than 2^20 bytes, none of them
-- zero, and no `send` takes nothing.
pub served-echoes :
    {World : Type 0} (os : Os World) (k fuel i : ℕ) (s : TcpServer) (w : World) (a : Accepted)
    (turns : List Turn)
    → k < fuel
    → FailsAt os s.handle_class s.fd k w
    → s.handles ≡ []
    → get_elem? (arrivals os s.handle_class s.fd k w) i ≡ some a
    → Honest turns (handle_client s.handle_class a)
    → Clean s.handle_class turns (handle_client s.handle_class a)
    → (s' : TcpServer) × (w' : World) × (TcpServer.run os fuel s w ≡ some (false, s', w'))
      × (get_elem? s'.handles i ≡ some a)
      × (rest : List ℕ) × ((Handle.run turns (handle_client s.handle_class a)).wire ++ rest
          ≡ (Handle.run turns (handle_client s.handle_class a)).received)
unfolding handle_client
served-echoes os k fuel i s w a turns lt fails first there honest clean =
    let (rest, e) = run-echoes_either s.handle_class a.fd turns honest clean in
    (
      with_handles s (arrivals os s.handle_class s.fd k w),
      after os s.handle_class s.fd k w,
      run-with_handles os k fuel s w lt fails,
      ap (λ hs. get_elem? (hs ++ arrivals os s.handle_class s.fd k w) i) first ∙ there,
      rest,
      e,
    )
