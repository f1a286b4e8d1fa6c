-- ===== src/System/Plain.antt =====
-- The descriptors that are open once a plain server (IPV4ThreadsTcpServer.cpp,
-- IPV6ThreadsTcpServer.cpp) has been started and stopped and its clients are closed.
use net_utils.Base.{
  ℕ, zero, suc, ◌<◌, ◌≡◌, ap, ◌∙◌, subst, false, inl, inr, if◌then◌else◌, List, [], map, ◌++◌,
  Option, none, some, ℤ, pos, negsuc, arith,
}
use net_utils.Context.{invalid_fd}
use net_utils.Os.{Os, OsLaws, Opens, Opens-failed}
use net_utils.Handle.{HandleClass, ipv4_handle, ipv6_handle}
use net_utils.TcpServer.{TcpServer, init_socket, start_with, start, stop}
use net_utils.TcpServer.Sockets.{Outcome, Holds, family, init_socket-Outcome}
use net_utils.TcpServer.Accepting.{
  FailsAt, arrivals, after, limited, with_handles, run-with_handles,
}
use net_utils.TcpServer.Failing.{set_timeouts-keeps, start-fresh}
use net_utils.System.Descriptors.{named, fd_of, close_all, opened, closed_again}

module _ {World : Type 0} (os : Os World) (laws : OsLaws os) where
  arrivals-is_open :
      (k : ℕ) (c : HandleClass) (fd : ℤ) (w : World) (m : ℕ)
      → FailsAt os c fd k w
      → (if named m (map fd_of (arrivals os c fd k w))
          then false
          else os.is_open (after os c fd k w) m)
        ≡ os.is_open w m
  arrivals-is_open zero c fd w m fails =
      Opens-failed os (os.accept fd w).0.fd fails (laws.accept_opens fd w) m
  arrivals-is_open (suc k) c fd w m (ok, set, fails) = ground (
    arith,
    arrivals-is_open k c fd (limited os c fd w).1 m fails,
    set_timeouts-keeps os laws c (os.accept fd w).0.fd (os.accept fd w).1 m,
    opened os laws (os.accept fd w).0.fd w (os.accept fd w).1 m ok (laws.accept_opens fd w),
  )

  held-eq :
      (c : HandleClass) (s : TcpServer) (n j : ℕ) (fd : ℤ)
      → s.fd ≡ invalid_fd
      → ◌≡◌ {A = Option ℤ} (some fd) (some (pos n))
      → Holds os c s j fd
      → j ≡ n
  held-eq ipv4_handle s n j fd fresh made holds = cc
  held-eq ipv6_handle s n j fd fresh made (inl holds) = cc
  held-eq ipv6_handle s n j fd fresh made (inr (holds, unknown)) = cc

  -- A server that had no descriptor holds the one that was opened.
  Holds-Opens :
      (c : HandleClass) (s : TcpServer) (n : ℕ) (w : World) (r : ℤ × World) (o : Option ℤ × World)
      → s.fd ≡ invalid_fd
      → o.0 ≡ some (pos n)
      → Outcome os (Holds os c s) w r o
      → Opens os w (pos n) o.1
  Holds-Opens c s n w (pos j, w1) (some fd, w') fresh made (holds, opens) =
      subst (λ i. Opens os w (pos i) w') (held-eq c s n j fd fresh made holds) opens
  Holds-Opens c s n w (pos j, w1) (none, w') fresh made outcome = absurd (ground arith)
  Holds-Opens c s n w (negsuc j, w1) (none, w') fresh made outcome = absurd (ground arith)
  Holds-Opens c s n w (negsuc j, w1) (some fd, w') fresh made outcome = absurd outcome

  pub init_socket-Opens :
      (s : TcpServer) (n : ℕ) (w w1 : World)
      → s.fd ≡ invalid_fd
      → init_socket os s.handle_class s w ≡ (some (pos n), w1)
      → Opens os w (pos n) w1
  init_socket-Opens s n w w1 fresh made =
      subst (λ t. Opens os w (pos n) t) (ap (λ r. r.1) made)
        (Holds-Opens s.handle_class s n w (os.socket (family os s.handle_class) w)
          (init_socket os s.handle_class s w) fresh (ap (λ r. r.0) made)
          (init_socket-Outcome os laws s.handle_class s w))

  -- With a system that keeps `OsLaws`: take a plain server of either class with no descriptor and
  -- no handle, for which `initSocket` succeeds with the descriptor n, and let the `accept` after k
  -- clients fail, each of which has taken its time limits (the fuel is more than k). `start`
  -- returns false with the handles of these clients; and once their descriptors are closed, in the
  -- order of any list that names them and no other, and `stop` is called, the same descriptors are
  -- open as before `start`.
  pub start-stop_plain :
      (k fuel n : ℕ) (s : TcpServer) (w w1 : World) (fds : List ℤ) (m : ℕ)
      → s.fd ≡ invalid_fd
      → s.handles ≡ []
      → init_socket os s.handle_class s w ≡ (some (pos n), w1)
      → k < fuel
      → FailsAt os s.handle_class (pos n) k w1
      → ((i : ℕ) → named i fds ≡ named i (map fd_of (arrivals os s.handle_class (pos n) k w1)))
      → (s' : TcpServer) × (w' : World) × (start os fuel s w ≡ some (false, s', w'))
        × (s'.handles ≡ arrivals os s.handle_class (pos n) k w1)
        × (os.is_open (stop os s' (close_all os fds w')).2 m ≡ os.is_open w m)
  unfolding stop
  start-stop_plain k fuel n s w w1 fds m fresh first made lt fails same =
      let clients = arrivals os s.handle_class (pos n) k w1 in
      let w' = after os s.handle_class (pos n) k w1 in
      (
        with_handles (record s { fd = pos n }) clients,
        w',
        start-fresh os fuel s w fresh
            ∙ ap (start_with os fuel s) made
            ∙ run-with_handles os k fuel (record s { fd = pos n }) w1 lt fails,
        ap (λ hs. hs ++ clients) first,
        closed_again os laws n fds (map fd_of clients) w w1 w' m
            (init_socket-Opens s n w w1 fresh made) (same m)
            (arrivals-is_open k s.handle_class (pos n) w1 m fails),
      )
