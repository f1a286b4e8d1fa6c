-- ===== src/System/Shutdown.antt =====
-- The descriptors that are open once a broker server (ThreadsTcpBroServer.cpp, ThreadsTcp6BroServer.cpp)
-- has been started and stopped and its clients have been released.
use net_utils.Base.{
  ℕ, zero, suc, ◌<◌, ◌≡◌, refl, sym, ap, ◌∙◌, subst, Bool, false, if◌then◌else◌, List, [], map, All,
  Option, none, some, ℤ, pos, negsuc, arith,
}
use net_utils.Protocol.{ProtocolType, pt_tcp_ipv4, pt_tcp_ipv6, pt_udp_ipv4, pt_udp_ipv6}
use net_utils.Context.{invalid_fd}
use net_utils.Os.{af_inet, af_inet6, Os, OsLaws, Opens, Opens-failed}
use net_utils.Engine.{Engine}
use net_utils.Engine.Init.{init_listening_socket}
use net_utils.Engine.Init.Descriptors.{Outcome, Listens, init_listening_socket-Listens}
use net_utils.Server
use net_utils.Server.{Server, context_for, start_with, run_result, stop}
use net_utils.Server.Accepting.{FailsAt, arrivals, after, run-returns}
use net_utils.Server.Lifecycle.{start_fresh}
use net_utils.Worker.{Turn}
use net_utils.System.Descriptors.{named, fd_of, close_all, opened, closed_again}
use net_utils.System.Broker.{Released, run-Released}

module _ {World : Type 0} (os : Os World) where
  module _ (laws : OsLaws os) where
    arrivals-is_open :
        (k : ℕ) (fd : ℤ) (w : World) (m : ℕ)
        → FailsAt os k fd w
        → (if named m (map fd_of (arrivals os k fd w))
            then false
            else os.is_open (after os k fd w) m)
          ≡ os.is_open w m
    arrivals-is_open zero fd w m fails =
        Opens-failed os (os.accept fd w).0.fd fails (laws.accept_opens fd w) m
    arrivals-is_open (suc k) fd w m (ok, fails) = ground (
      arith,
      arrivals-is_open k fd (os.accept fd w).1 m fails,
      opened os laws (os.accept fd w).0.fd w (os.accept fd w).1 m ok (laws.accept_opens fd w),
    )

    result_parts :
        {s1 s2 : Server} {w1 w2 : World}
        → ◌≡◌ {A = Option (Bool × Server × World)} (some (false, s1, w1)) (some (false, s2, w2))
        → (s1 ≡ s2) × (w1 ≡ w2)
    result_parts e = (cc, cc)

    stopped :
        (n : ℕ) (s : Server) (w : World)
        → s.fd ≡ pos n
        → (m : ℕ) → os.is_open (stop os s w) m ≡ os.is_open (os.close (pos n) w) m
    unfolding stop
    stopped n s w h m = rw h refl

    Outcome-some :
        (e0 e : Engine) (w : World) (c : ℤ × World) (r : Option Engine × World)
        → r.0 ≡ some e
        → Outcome os e0 w c r
        → (n : ℕ) × (e.fd ≡ pos n) × Opens os w (pos n) r.1
    Outcome-some e0 e w (pos n, w1) (some e', w') made (held, opens) = (n, ground arith, opens)
    Outcome-some e0 e w (pos n, w1) (none, w') made opens = cc
    Outcome-some e0 e w (negsuc k, w1) (none, w') made opens = cc
    Outcome-some e0 e w (negsuc k, w1) (some e', w') made none_left = absurd none_left

    pub Listens-some :
        (t : ProtocolType) (e0 e : Engine) (w : World) (r : Option Engine × World)
        → r.0 ≡ some e
        → Listens os t e0 w r
        → (n : ℕ) × (e.fd ≡ pos n) × Opens os w (pos n) r.1
    Listens-some pt_tcp_ipv4 e0 e w r made listens =
        Outcome-some e0 e w (os.socket af_inet w) r made listens
    Listens-some pt_tcp_ipv6 e0 e w r made listens =
        Outcome-some e0 e w (os.socket af_inet6 w) r made listens
    Listens-some pt_udp_ipv4 e0 e w r made listens = absurd (ground arith)
    Listens-some pt_udp_ipv6 e0 e w r made listens = absurd (ground arith)

    module _ (k fuel : ℕ) (s : Server) (e : Engine) (w w1 : World) (fresh : s.fd ≡ invalid_fd)
        (first : s.workers ≡ []) (made : init_listening_socket os s.engine w ≡ (some e, w1))
        (lt : k < fuel) (fails : FailsAt os k e.fd w1) where
      abbrev listening : Server
      listening = record s { engine = e }

      start-listening :
          (s' : Server) (w' : World)
          → Server.run os fuel listening w1 ≡ some (false, s', w')
          → Server.start os fuel s w ≡ some (false, s', w')
      start-listening s' w' ran =
          start_fresh os laws fuel s w fresh
          ∙ ap (start_with os fuel s) made
          ∙ ap (run_result os) ran

      listening-Opens : (n : ℕ) × (e.fd ≡ pos n) × Opens os w (pos n) w1
      listening-Opens =
          let (n, held, opens) =
            Listens-some s.protocol_type s.engine e w (init_listening_socket os s.engine w)
              (ap (λ r. r.0) made) (init_listening_socket-Listens os laws s.engine w) in
          (n, held, subst (λ t. Opens os w (pos n) t) (ap (λ r. r.1) made) opens)

      restored :
          (fds : List ℤ)
          → ((m : ℕ) → named m fds ≡ named m (map fd_of (arrivals os k e.fd w1)))
          → (m : ℕ)
          → os.is_open (os.close e.fd (close_all os fds (after os k e.fd w1))) m ≡ os.is_open w m
      restored fds same m =
          let (n, held, opens) = listening-Opens in
          ap (λ fd. os.is_open (os.close fd (close_all os fds (after os k e.fd w1))) m) held
          ∙ closed_again os laws n fds (map fd_of (arrivals os k e.fd w1)) w w1 (after os k e.fd w1)
              m opens (same m) (arrivals-is_open k e.fd w1 m fails)

      -- With a system that keeps `OsLaws`: take a broker server of either class with no descriptor
      -- and no worker, whose listening socket can be set up, and let `accept` fail after k clients
      -- (the fuel is more than k). `start` returns false; each worker, whatever order its threads
      -- run in, either has closed its client's descriptor once and the destructor of the context
      -- does nothing more, or has not and the destructor closes it; and once the clients'
      -- descriptors are closed, in the order of any list that names them and no other, and `stop`
      -- is called, the same descriptors are open as before `start`.
      pub start-stop :
          (turns : List Turn) (fds : List ℤ) (m : ℕ)
          → ((n : ℕ) → named n fds ≡ named n (map fd_of (arrivals os k e.fd w1)))
          → (s' : Server) × (w' : World) × (Server.start os fuel s w ≡ some (false, s', w'))
            × All (Released os turns) s'.workers
            × (os.is_open (stop os s' (close_all os fds w')) m ≡ os.is_open w m)
      start-stop turns fds m same =
          let (n, held, opens) = listening-Opens in
          let (s', w', ran, count, all) =
            run-Released os k fuel listening w1 turns lt fails first in
          let (server, system) =
            result_parts (sym ran ∙ run-returns os k fuel listening w1 lt fails) in
          (
            s',
            w',
            start-listening s' w' ran,
            all,
            stopped n s' (close_all os fds w') (ap (λ t. t.fd) server ∙ held) m
                ∙ ap (λ fd. os.is_open (os.close fd (close_all os fds w')) m) (sym held)
                ∙ ap (λ t. os.is_open (os.close e.fd (close_all os fds t)) m) system
                ∙ restored fds same m,
          )
