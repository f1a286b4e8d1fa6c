-- ===== src/System/Receiving.antt =====
-- The numbers that the receiving threads of the workers (ThreadsTcpBroWorker.cpp) give to `recv` while a
-- broker server runs.
use net_utils.Base.{
  nonneg, ℕ, zero, suc, ◌+◌, ◌≡◌, ◌≢◌, refl, ap, subst, ◌∙◌, true, false, List, [], ◌∷◌, get_elem?,
  some, All, All-get_elem?, ℤ, pos, is_neg, arith,
}
use net_utils.Context.{invalid_fd}
use net_utils.Os.{Accepted, Os, OsLaws}
use net_utils.Server.{ServerClass, threads_tcp, threads_tcp6, Server, context_for}
use net_utils.Server.Accepting.{context_for-client_fd}
use net_utils.Worker.{in_recv, held_fd}
use net_utils.Worker.Closing.{is_fd}
use net_utils.Worker.Own.{Quiet, Inv, step-Inv, new_worker-Inv, Inv-in_recv}
use net_utils.System.Threads.{unset, Session, Running, new_running, Event, advance_all}
use net_utils.System.Sessions.{Takes, advance_all-Each}
use net_utils.System.Accounts.{one_if, holders}
use net_utils.System.Interleaved.{advance_all-Accounted}

-- A session of an accepted client whose worker keeps the invariant of its receiving thread.
abbrev Fit : ServerClass → Session → Type 0
Fit c x = (is_neg x.context.client_fd ≡ false) × Inv x.context.client_fd x.worker

context_for-response :
    {World : Type 0} (os : Os World) (c : ServerClass) (a : Accepted)
    → (context_for os c a).response ≡ []
context_for-response os threads_tcp a = refl
context_for-response os threads_tcp6 a = refl

module _ {World : Type 0} (os : Os World) where
  advance_all-Fit :
      (events : List Event) (s : Server) (w : World)
      → All (Takes Quiet) events
      → All
          (Fit (advance_all os events (new_running s, w)).0.server.server_class)
          (advance_all os events (new_running s, w)).0.sessions
  advance_all-Fit events s w quiet =
      advance_all-Each os Fit Quiet (λ c t x q fit. (fit.0, step-Inv t x.worker q fit.1))
        (λ c a ok. (
          ap is_neg (context_for-client_fd os c a) ∙ ok,
          new_worker-Inv (context_for os c a) (context_for-response os c a),
        ))
        events (new_running s) w quiet tt

-- A session in the list is a holder of its descriptor.
holders-get_elem? :
    (xs : List Session) (i : ℕ) (x : Session) (n : ℕ)
    → get_elem? xs i ≡ some x
    → held_fd x.worker ≡ pos n
    → (k : ℕ) × (holders n xs ≡ suc k)
holders-get_elem? [] i x n e held = cc
holders-get_elem? (y ∷ ys) zero x n e held =
    let same : held_fd y.worker ≡ pos n = ground arith in (holders n ys, ground arith)
holders-get_elem? (y ∷ ys) (suc i) x n e held =
    let (k, more) = holders-get_elem? ys i x n e held in
    (one_if (is_fd n (held_fd y.worker)) + k, omega (arith, more))

module _ {World : Type 0} (os : Os World) (laws : OsLaws os) where
  -- With a system that keeps `OsLaws`: start a broker server of either class that has no descriptor
  -- and let its threads run in any order, where no thread sets a response and the set-up of the
  -- listening socket has not failed. A context holds the descriptor that it names until a thread
  -- has closed it, which is before the thread clears it. Whenever the receiving thread of the i-th
  -- worker stands in `recv`, it has called it with an open descriptor that its own context holds,
  -- and neither the context of another client, nor the listening socket, nor what was open before
  -- `start` is this descriptor.
  pub recv-own :
      (s : Server) (events : List Event) (w w' : World) (r : Running) (i : ℕ) (x : Session) (fd : ℤ)
      → s.fd ≡ invalid_fd
      → All (Takes Quiet) events
      → advance_all os events (new_running s, w) ≡ (r, w')
      → r.phase ≢ unset
      → get_elem? r.sessions i ≡ some x
      → x.worker.reader ≡ in_recv fd
      → (n : ℕ) × (fd ≡ pos n)
        × (held_fd x.worker ≡ pos n)
        × (os.is_open w' n ≡ true)
        × (holders n r.sessions ≡ 1)
        × (r.server.fd ≢ pos n)
        × (os.is_open w n ≡ false)
  recv-own s events w w' r i x fd fresh quiet ran fine there receiving =
      let fit =
        All-get_elem? (Fit r.server.server_class) r.sessions i x
          (subst (λ c. All (Fit c.0.server.server_class) c.0.sessions) ran
            (advance_all-Fit os events s w quiet))
          there in
      let (n, valid) = nonneg x.context.client_fd fit.0 in
      let (own, held) = Inv-in_recv x.context.client_fd fd x.worker fit.1 receiving in
      let (k, count) = holders-get_elem? r.sessions i x n there (held ∙ valid) in
      let total = advance_all-Accounted os laws s events w w' r fresh ran fine n in
      (n, own ∙ valid, held ∙ valid, ground arith, ground arith, λ e. ground arith, ground arith)
