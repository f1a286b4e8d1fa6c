-- ===== src/Worker/Foreign.antt =====
-- A client whose context is not an IPv4 one, such as each of those of `ThreadsTcp6BroServer`.
use net_utils.Base.{ℕ, ◌≡◌, ◌⊎◌, inl, refl, List, [], ◌∷◌, none, arith}
use net_utils.Context.{SocketContext, ClientAddr, ipv4, ipv6, as_ipv4}
use net_utils.Io.Send.{Answer}
use net_utils.Io.Recv.{Incoming}
use net_utils.Os.{Accepted, Os}
use net_utils.Server.{threads_tcp6, context_for}
use net_utils.Worker.{
  Pc, unborn, starting, finished, MainPc, begin, returned_true, Worker, new_worker, read_at,
  write_at, main_at, Turn, mains, reads, writes, step, run,
}

abbrev NotIpv4 : ClientAddr → Type 0
NotIpv4 (ipv4 a p) = ⊥
NotIpv4 _ = Unit

abbrev Idle : Pc → Type 0
Idle pc = (pc ≡ unborn) ⊎ (pc ≡ starting) ⊎ (pc ≡ finished)

record Untouched (context : SocketContext) (w : Worker) : Type 0 where
  foreign : NotIpv4 w.client_addr
  same_fd : w.client_fd ≡ context.client_fd
  same_request : w.request ≡ context.request
  never_closed : w.closes ≡ []
  nothing_read : w.received ≡ []
  nothing_sent : w.wire ≡ []
  reader_idle : Idle w.reader
  writer_idle : Idle w.writer

module _ {context : SocketContext} where
  read_at-Untouched :
      (pc : Pc) (i : Incoming) (w : Worker)
      → w.reader ≡ pc
      → Untouched context w
      → Untouched context (read_at pc i w)
  unfolding read_at
  read_at-Untouched starting i w e u = ground arith
  read_at-Untouched pc i w e u = ground arith

  write_at-Untouched :
      (pc : Pc) (answers : List Answer) (w : Worker)
      → w.writer ≡ pc
      → Untouched context w
      → Untouched context (write_at pc answers w)
  unfolding write_at
  write_at-Untouched starting answers w e u = ground arith
  write_at-Untouched pc answers w e u = ground arith

  main_at-Untouched :
      (pc : MainPc) (w : Worker) → Untouched context w → Untouched context (main_at pc w)
  unfolding main_at
  main_at-Untouched begin w u = ground arith
  main_at-Untouched pc w u = ground arith

  step-Untouched : (t : Turn) (w : Worker) → Untouched context w → Untouched context (step t w)
  unfolding step
  step-Untouched mains w u = main_at-Untouched w.main w u
  step-Untouched (reads i) w u = read_at-Untouched w.reader i w refl u
  step-Untouched (writes answers) w u = write_at-Untouched w.writer answers w refl u
  step-Untouched t w u = ground arith

  run-Untouched :
      (turns : List Turn) (w : Worker) → Untouched context w → Untouched context (run turns w)
  unfolding run
  run-Untouched [] w u = u
  run-Untouched (t ∷ turns) w u = run-Untouched turns (step t w) (step-Untouched t w u)

NotIpv4-as_ipv4 : (context : SocketContext) → as_ipv4 context ≡ none → NotIpv4 context.client_addr
NotIpv4-as_ipv4 context e = ground arith

new_worker-Untouched :
    (context : SocketContext) → as_ipv4 context ≡ none → Untouched context (new_worker context)
new_worker-Untouched context e = record {
  foreign = NotIpv4-as_ipv4 context e;
  same_fd = refl;
  same_request = refl;
  never_closed = refl;
  nothing_read = refl;
  nothing_sent = refl;
  reader_idle = inl refl;
  writer_idle = inl refl;
}

-- A worker for a context that is not an IPv4 one never reads, sends or closes, in any order of the
-- threads: the descriptor stays in the context and the request as it was.
pub run-foreign :
    (context : SocketContext) (turns : List Turn)
    → as_ipv4 context ≡ none
    → ((run turns (new_worker context)).client_fd ≡ context.client_fd)
      × ((run turns (new_worker context)).request ≡ context.request)
      × ((run turns (new_worker context)).closes ≡ [])
      × ((run turns (new_worker context)).received ≡ [])
      × ((run turns (new_worker context)).wire ≡ [])
run-foreign context turns e =
    let u = run-Untouched turns (new_worker context) (new_worker-Untouched context e) in
    (u.same_fd, u.same_request, u.never_closed, u.nothing_read, u.nothing_sent)

-- `doWork` with each thread run to its end, one after the other.
abbrev pub straight : List Turn
straight =
    mains ∷ mains ∷ mains ∷ mains ∷ reads (Incoming.failed 0) ∷ writes [] ∷ mains ∷ mains ∷ []

straight_returns :
    (context : SocketContext) (a p : ℕ)
    → context.client_addr ≡ ipv6 a p
    → (run straight (new_worker context)).main ≡ returned_true
unfolding run step main_at read_at write_at
straight_returns context a p e = rw e refl

-- No client of `ThreadsTcp6BroServer` is ever served: the worker for the context that `run` makes of
-- it reads and sends nothing in any order of the threads, and `doWork` can return with the
-- descriptor never closed.
tcp6_client-foreign :
    {World : Type 0} (os : Os World) (client : Accepted) (turns : List Turn)
    → let context = context_for os threads_tcp6 client in
      ((run turns (new_worker context)).received ≡ [])
      × ((run turns (new_worker context)).wire ≡ [])
      × ((run straight (new_worker context)).main ≡ returned_true)
      × ((run straight (new_worker context)).closes ≡ [])
tcp6_client-foreign os client turns =
    let context = context_for os threads_tcp6 client in
    let ignored = run-foreign context turns refl in
    (
      ignored.3,
      ignored.4,
      straight_returns context client.addr client.port refl,
      (run-foreign context straight refl).2,
    )
