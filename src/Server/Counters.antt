-- ===== src/Server/Counters.antt =====
-- The members of a server that no public operation ever sets.
use net_utils.Base.{
  ℕ, ◌≡◌, ◌⊎◌, inl, inr, ◌++◌, arith, refl, sym, subst, Bool, true, false, List, [], ◌∷◌, Option,
  none, some, ℤ, pos,
}
use net_utils.Context.{SocketContext, is_invalid}
use net_utils.Os.{Text, Os}
use net_utils.Engine.{
  Engine, is_started, get_connections, get_max_connections, enable_dump_request,
  disable_dump_request, set_listening_socket, set_listening_address, set_listening_port,
}
use net_utils.Engine.Init.{init_listening_socket}
use net_utils.Engine.Init.Members.{SetsFd, init_listening_socket-SetsFd}
use net_utils.Server.Lifecycle.{run_result_lem}
use net_utils.Server.{
  Server, threads_tcp_bro_server_at, threads_tcp6_bro_server_at, run, run_result, start_with, start,
  stop, restart,
}
use net_utils.Server.Operations.{
  Op, starts, restarts, stops, dumps_on, dumps_off, sets_socket, sets_port, sets_address, ended,
  step, and_then, steps,
}
use net_utils.Server.Accepting.{run-Serves}

-- The members that stay as the constructor left them.
pub record IsIdle (garbage : ℕ) (e : Engine) : Type 0 where
  pub not_running : e.is_running ≡ false
  pub none_sent : e.total_send_bytes ≡ pos 0
  pub none_received : e.total_recv_bytes ≡ pos 0
  pub no_connections : e.connections ≡ 0
  pub unset : e.max_connections ≡ garbage

new-IsIdle :
    (s : Server) (tag ip : Text) (port garbage : ℕ)
    → (s ≡ threads_tcp_bro_server_at tag ip port garbage)
      ⊎ (s ≡ threads_tcp6_bro_server_at tag ip port garbage)
    → IsIdle garbage s.engine
unfolding threads_tcp_bro_server_at threads_tcp6_bro_server_at
new-IsIdle s tag ip port garbage (inl e) = rw e (record {
  not_running = refl;
  none_sent = refl;
  none_received = refl;
  no_connections = refl;
  unset = refl;
})
new-IsIdle s tag ip port garbage (inr e) = rw e (record {
  not_running = refl;
  none_sent = refl;
  none_received = refl;
  no_connections = refl;
  unset = refl;
})

module _ {World : Type 0} (os : Os World) (garbage : ℕ) where
  abbrev AfterIdle : Option (Server × World) → Type 0
  AfterIdle none = Unit
  AfterIdle (some (s, w)) = IsIdle garbage s.engine

  -- An engine whose idle members are those of an idle one.
  IsIdle-eq :
      {e e' : Engine} (fd : ℤ) (queue : List SocketContext)
      → e' ≡ record e { fd = fd; socket_context_queue = queue }
      → IsIdle garbage e
      → IsIdle garbage e'
  IsIdle-eq fd queue eq idle = rw eq (record {
    not_running = idle.not_running;
    none_sent = idle.none_sent;
    none_received = idle.none_received;
    no_connections = idle.no_connections;
    unset = idle.unset;
  })

  run-IsIdle :
      (fuel : ℕ) (s : Server) (w : World)
      → IsIdle garbage s.engine
      → AfterIdle (ended (run_result os (run os fuel s w)))
  run-IsIdle fuel s w idle = by_result (run os fuel s w) refl
    where
      by_result :
          (r : Option (Bool × Server × World))
          → run os fuel s w ≡ r
          → AfterIdle (ended (run_result os r))
      by_result none e = tt
      by_result (some (true, s', w')) e = cc ((run-Serves os fuel s w e).failed)
      by_result (some (false, s', w')) e =
          let v = run-Serves os fuel s w e in
          IsIdle-eq s.fd (s.socket_context_queue ++ v.clients) v.queued idle

  start_with-IsIdle :
      (fuel : ℕ) (s : Server) (r : Option Engine × World)
      → IsIdle garbage s.engine
      → SetsFd s.engine r
      → AfterIdle (ended (start_with os fuel s r))
  start_with-IsIdle fuel s (none, w) idle sets = idle
  start_with-IsIdle fuel s (some e, w) idle (fd, eq) =
      run-IsIdle fuel (record s { engine = e }) w (IsIdle-eq fd s.socket_context_queue eq idle)

  start-IsIdle :
      (fuel : ℕ) (s : Server) (w : World)
      → IsIdle garbage s.engine
      → AfterIdle (ended (start os fuel s w))
  unfolding start
  start-IsIdle fuel s w idle = by_fd (is_invalid s.fd)
    where
      by_fd :
          (b : Bool)
          → AfterIdle (
              ended (elim b [
                | true ↦ start_with os fuel s (init_listening_socket os s.engine w)
                | false ↦ run_result os (run os fuel s w)
              ]))
      by_fd true = start_with-IsIdle fuel s _ idle (init_listening_socket-SetsFd os s.engine w)
      by_fd false = run-IsIdle fuel s w idle

  restart-IsIdle :
      (fuel : ℕ) (s : Server) (w : World)
      → IsIdle garbage s.engine
      → AfterIdle (ended (restart os fuel s w))
  unfolding restart
  restart-IsIdle fuel s w idle =
      subst (λ r. AfterIdle (ended r)) (sym (run_result_lem os _))
        (start-IsIdle fuel s (stop os s w) idle)

  set_listening_socket-IsIdle :
      (fd : ℤ) (e : Engine) → IsIdle garbage e → IsIdle garbage (set_listening_socket fd e)
  unfolding set_listening_socket
  set_listening_socket-IsIdle fd e idle = ground arith

  step-IsIdle :
      (op : Op) (s : Server) (w : World) → IsIdle garbage s.engine → AfterIdle (step os op s w)
  unfolding step
  step-IsIdle (starts fuel) s w idle = start-IsIdle fuel s w idle
  step-IsIdle (restarts fuel) s w idle = restart-IsIdle fuel s w idle
  step-IsIdle stops s w idle = idle
  step-IsIdle dumps_on s w idle = unfold enable_dump_request in ground arith
  step-IsIdle dumps_off s w idle = unfold disable_dump_request in ground arith
  step-IsIdle (sets_socket fd) s w idle = set_listening_socket-IsIdle fd s.engine idle
  step-IsIdle (sets_port port) s w idle = unfold set_listening_port in ground arith
  step-IsIdle (sets_address ip) s w idle = unfold set_listening_address in ground arith

  steps-IsIdle :
      (ops : List Op) (s : Server) (w : World)
      → IsIdle garbage s.engine
      → AfterIdle (steps os ops s w)
  unfolding steps
  steps-IsIdle [] s w idle = idle
  steps-IsIdle (op ∷ ops) s w idle =
      by_result (step os op s w) (step-IsIdle op s w idle) (steps-IsIdle ops)
    where
      by_result :
          (r : Option (Server × World))
          → AfterIdle r
          → ((s' : Server) (w' : World) → IsIdle garbage s'.engine → AfterIdle (steps os ops s' w'))
          → AfterIdle (and_then r (steps os ops))
      by_result none idle rest = tt
      by_result (some (s', w')) idle rest = rest s' w' idle

-- After any sequence of operations that have returned, a server of either class, made with an
-- address and a port, says that it is not
-- started and has no connection, whatever clients it accepted, and its limit of connections is what
-- the memory held before the constructor ran.
pub steps-never_started :
    {World : Type 0} (os : Os World) (s : Server) (tag ip : Text) (port garbage : ℕ) (ops : List Op)
    (w : World) (s' : Server) (w' : World)
    → (s ≡ threads_tcp_bro_server_at tag ip port garbage)
      ⊎ (s ≡ threads_tcp6_bro_server_at tag ip port garbage)
    → steps os ops s w ≡ some (s', w')
    → (is_started s'.engine ≡ false)
      × (get_connections s'.engine ≡ 0)
      × (get_max_connections s'.engine ≡ garbage)
unfolding is_started get_connections get_max_connections
steps-never_started os s tag ip port garbage ops w s' w' made e =
    let idle : IsIdle garbage s'.engine =
      subst (AfterIdle os garbage) e
        (steps-IsIdle os garbage ops s w (new-IsIdle s tag ip port garbage made)) in
    (idle.not_running, idle.no_connections, idle.unset)
