-- ===== src/System/Broker.antt =====
-- `run` of ThreadsTcpBroServer.cpp and ThreadsTcp6BroServer.cpp with the workers of
-- ThreadsTcpBroWorker.cpp that `process` starts.
use net_utils.Base.{
  nonneg, ℕ, zero, suc, ◌<◌, ◌≡◌, ◌⊎◌, inl, inr, refl, sym, ap, subst, ◌∙◌, false, List, [], ◌++◌,
  map, length, length-map, All, All-both, some, ℤ, pos, is_neg, arith,
}
use net_utils.Context.{SocketContext, destroy}
use net_utils.Os.{Os}
use net_utils.Server
use net_utils.Server.{ServerClass, Server, threads_tcp, threads_tcp6, context_for}
use net_utils.Server.Accepting.{
  OfClass, run-Serves, FailsAt, with_clients, arrivals, after, run-returns,
}
use net_utils.Worker.{Worker, held_fd, new_worker, Turn, run}
use net_utils.Worker.Closing.{OpenOrClosed, closes_of, run-OpenOrClosed}
use net_utils.Worker.Bytes.{pending, run-request}
use net_utils.Worker.Foreign.{run-foreign}

-- A worker that has left its client alone: the descriptor is open in the context still.
pub record Untouched (turns : List Turn) (context : SocketContext) : Type 0 where
  pub nothing_read : (run turns (new_worker context)).received ≡ []
  pub nothing_sent : (run turns (new_worker context)).wire ≡ []
  pub never_closed : (run turns (new_worker context)).closes ≡ []
  pub keeps_fd : (run turns (new_worker context)).client_fd ≡ context.client_fd

-- A worker that keeps its client's descriptor until it closes it once, and has put into the request
-- what it received, but for the piece in its hands.
pub record Attended (turns : List Turn) (context : SocketContext) : Type 0 where
  pub fd : ℕ
  pub held : context.client_fd ≡ pos fd
  pub once : OpenOrClosed fd (run turns (new_worker context))
  pub requested :
      (run turns (new_worker context)).request ++ pending (run turns (new_worker context)).reader
      ≡ (run turns (new_worker context)).received

-- The context when its worker has taken its turns.
abbrev pub context_after : List Turn → SocketContext → SocketContext
context_after turns context =
    let w = run turns (new_worker context) in
    record context { client_fd = w.client_fd; request = w.request; response = w.response }

-- Either the worker has closed the descriptor once, and the destructor of the context does nothing
-- (unless a thread stands between `close` and the assignment after it), or it has not, and the
-- destructor closes it.
pub record Released {World : Type 0} (os : Os World) (turns : List Turn) (context : SocketContext)
    : Type 0 where
  pub fd : ℕ
  pub held : context.client_fd ≡ pos fd
  pub released :
      ((closes_of fd (run turns (new_worker context)).closes ≡ 1)
        × (held_fd (run turns (new_worker context)) ≡ (run turns (new_worker context)).client_fd
            → (w : World) → destroy os (context_after turns context) w ≡ w))
      ⊎ ((closes_of fd (run turns (new_worker context)).closes ≡ 0)
          × ((w : World) → destroy os (context_after turns context) w ≡ os.close (pos fd) w))

pub OfClass-Untouched :
    (turns : List Turn) (context : SocketContext)
    → is_neg context.client_fd ≡ false
    → OfClass threads_tcp6 context
    → Untouched turns context
OfClass-Untouched turns context ok (a, p, addr, empty) =
    let ignored = run-foreign context turns (ground arith) in
    record {
      nothing_read = ignored.3;
      nothing_sent = ignored.4;
      never_closed = ignored.2;
      keeps_fd = ignored.0;
    }

pub OfClass-Attended :
    (turns : List Turn) (context : SocketContext)
    → is_neg context.client_fd ≡ false
    → OfClass threads_tcp context
    → Attended turns context
OfClass-Attended turns context ok (a, p, addr, empty) =
    let (n, held) = nonneg context.client_fd ok in
    record {
      fd = n;
      held = held;
      once = run-OpenOrClosed context n a p turns held addr;
      requested =
          run-request context turns
          ∙ ap (λ r. r ++ (run turns (new_worker context)).received) empty;
    }

-- A context names the descriptor that it holds.
named : (w : Worker) (n : ℕ) → held_fd w ≡ pos n → w.client_fd ≡ pos n
named w n e = ground arith

module _ {World : Type 0} (os : Os World) where
  OfClass-Released :
      (c : ServerClass) (turns : List Turn) (context : SocketContext)
      → is_neg context.client_fd ≡ false
      → OfClass c context
      → Released os turns context
  unfolding closes_of
  OfClass-Released threads_tcp turns context ok made =
      let kept = OfClass-Attended turns context ok made in
      record {
        fd = kept.fd;
        held = kept.held;
        released = elim (kept.once) [
          | inl (still, never) ↦
              inr (never, λ w. rw (named (run turns (new_worker context)) kept.fd still) refl)
          | inr (gone, once) ↦ inl (once, λ level w. rw (sym level ∙ gone) refl)
        ];
      }
  OfClass-Released threads_tcp6 turns context ok made =
      let ignored = OfClass-Untouched turns context ok made in
      let (n, held) = nonneg context.client_fd ok in
      record {
        fd = n;
        held = held;
        released =
            inr (ap (closes_of n) ignored.never_closed, λ w. rw (ignored.keeps_fd, held) refl);
      }

  length-arrivals : (k : ℕ) (fd : ℤ) (w : World) → length (arrivals os k fd w) ≡ k
  length-arrivals zero fd w = refl
  length-arrivals (suc k) fd w = ap suc (length-arrivals k fd (os.accept fd w).1)

  module _ (k fuel : ℕ) (s : Server) (w : World) (turns : List Turn) (lt : k < fuel)
      (fails : FailsAt os k s.fd w) (first : s.workers ≡ []) where
    length-workers : length (with_clients os s (arrivals os k s.fd w)).workers ≡ k
    length-workers =
        ap (λ ws. length (ws ++ map (context_for os s.server_class) (arrivals os k s.fd w))) first
        ∙ length-map (context_for os s.server_class) (arrivals os k s.fd w)
        ∙ length-arrivals k s.fd w

    All-workers :
        {P : SocketContext → Type 0}
        → ((c : SocketContext) → is_neg c.client_fd ≡ false → OfClass s.server_class c → P c)
        → All P (with_clients os s (arrivals os k s.fd w)).workers
    All-workers {P} f =
        let served = run-Serves os fuel s w (run-returns os k fuel s w lt fails) in
        subst (All P) (sym (served.handed ∙ ap (λ ws. ws ++ served.clients) first))
          (All-both served.clients f served.valid served.of_class)

    -- If `accept` fails after k clients (and the fuel is more than k), `run` of a
    -- ThreadsTcp6BroServer that has no worker yet returns false with k workers, and none of these
    -- receives, sends or closes, whatever order its threads run in, so that its context keeps the
    -- client's descriptor.
    pub tcp6_run-Untouched :
        s.server_class ≡ threads_tcp6
        → (s' : Server) × (w' : World) × (Server.run os fuel s w ≡ some (false, s', w'))
          × (length s'.workers ≡ k)
          × All (Untouched turns) s'.workers
    tcp6_run-Untouched class6 = (
      with_clients os s (arrivals os k s.fd w),
      after os k s.fd w,
      run-returns os k fuel s w lt fails,
      length-workers,
      All-workers λ c ok made. OfClass-Untouched turns c ok (subst (λ t. OfClass t c) class6 made),
    )

    -- If `accept` fails after k clients (and the fuel is more than k), `run` of a
    -- ThreadsTcpBroServer that has no worker yet returns false with k workers, and each of these,
    -- whatever order its threads run in, keeps its client's descriptor until it closes it once, and
    -- has put what it received into the request, but for the piece in its hands.
    pub tcp_run-Attended :
        s.server_class ≡ threads_tcp
        → (s' : Server) × (w' : World) × (Server.run os fuel s w ≡ some (false, s', w'))
          × (length s'.workers ≡ k)
          × All (Attended turns) s'.workers
    tcp_run-Attended class4 = (
      with_clients os s (arrivals os k s.fd w),
      after os k s.fd w,
      run-returns os k fuel s w lt fails,
      length-workers,
      All-workers λ c ok made. OfClass-Attended turns c ok (subst (λ t. OfClass t c) class4 made),
    )

    -- If `accept` fails after k clients
    -- (and the fuel is more than k), `run` of a server of either class that has no worker yet returns
    -- false with k workers; for each of these, whatever order its threads run in, either the worker
    -- has closed the descriptor once and the destructor of the context does nothing more (unless a
    -- thread stands between the two), or it has not and the destructor closes it.
    pub run-Released :
        (s' : Server) × (w' : World) × (Server.run os fuel s w ≡ some (false, s', w'))
        × (length s'.workers ≡ k)
        × All (Released os turns) s'.workers
    run-Released = (
      with_clients os s (arrivals os k s.fd w),
      after os k s.fd w,
      run-returns os k fuel s w lt fails,
      length-workers,
      All-workers λ c ok made. OfClass-Released s.server_class turns c ok made,
    )
