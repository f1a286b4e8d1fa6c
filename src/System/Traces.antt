-- ===== src/System/Traces.antt =====
-- Each worker of a broker server (ThreadsTcpBroProcessor.cpp) in a run of all threads by its own turns.
use net_utils.Base.{
  ℕ, zero, suc, ◌≡◌, inl, inr, refl, sym, ap, ◌∙◌, subst, false, Bool-cases, List, [], ◌∷◌, ◌++◌,
  append-nil, map, get_elem?, Option, none, some, All, All-get_elem?, is_neg,
}
use net_utils.Context.{SocketContext, is_invalid}
use net_utils.Os.{Accepted, Os}
use net_utils.Engine.{Engine}
use net_utils.Engine.Init.{init_listening_socket}
use net_utils.Server.{ServerClass, threads_tcp, threads_tcp6, Server, context_for, admit}
use net_utils.Server.Accepting.{
  OfClass, context_for-OfClass, context_for-client_fd, accept_client-refused, accept_client-admits,
}
use net_utils.Worker.{new_worker, Turn, run, step}
use net_utils.Worker.Own.{run-snoc}
use net_utils.System.Broker.{Attended, Untouched, OfClass-Attended, OfClass-Untouched}
use net_utils.System.Sessions.{Takes, advance_all-Each}
use net_utils.System.Ledger.{spawned-admit}
use net_utils.System.Threads.{
  Phase, created, accepting, unset, left, Session, new_session, nth_step, Running, new_running,
  Event, serves, turns, set_up, start_at, advance, advance_all,
}

-- The worker has come from its context by turns of its own.
abbrev pub Traced : ServerClass → Session → Type 0
Traced c x =
    (is_neg x.context.client_fd ≡ false)
    × OfClass c x.context
    × ((ts : List Turn) × (x.worker ≡ run ts (new_worker x.context)))

-- What the worker of a context of the class has done: for IPv4 the client is attended to, for IPv6 it
-- is left alone.
abbrev pub Serviced : ServerClass → List Turn → SocketContext → Type 0
Serviced threads_tcp ts context = Attended ts context
Serviced threads_tcp6 ts context = Untouched ts context

OfClass-Serviced :
    (c : ServerClass) (ts : List Turn) (context : SocketContext)
    → is_neg context.client_fd ≡ false
    → OfClass c context
    → Serviced c ts context
OfClass-Serviced threads_tcp ts context ok made = OfClass-Attended ts context ok made
OfClass-Serviced threads_tcp6 ts context ok made = OfClass-Untouched ts context ok made

abbrev pub AnyTurn : Turn → Type 0
AnyTurn t = Unit

pub any_Takes : (e : Event) → Takes AnyTurn e
any_Takes serves = tt
any_Takes (turns i t) = tt

any : (events : List Event) → All (Takes AnyTurn) events
any [] = tt
any (e ∷ events) = (any_Takes e, any events)

pub step-Traced :
    (c : ServerClass) (t : Turn) (x : Session)
    → Traced c x
    → Traced c (record x { worker = step t x.worker })
step-Traced c t x (ok, made, (ts, ran)) =
    (ok, made, (ts ++ t ∷ [], ap (step t) ran ∙ sym (run-snoc ts t (new_worker x.context))))

abbrev pub contexts : List Session → List SocketContext
contexts xs = map (λ x. x.context) xs

pub contexts-snoc :
    (xs : List Session) (x : Session) → contexts (xs ++ x ∷ []) ≡ contexts xs ++ x.context ∷ []
contexts-snoc [] x = refl
contexts-snoc (y ∷ ys) x = ap (◌∷◌ y.context) (contexts-snoc ys x)

-- The same contexts have come to the sessions and to the list of those that the processor was given.
abbrev pub Grows : Running → Running → Type 0
Grows r r' =
    (cs : List SocketContext) × (contexts r'.sessions ≡ contexts r.sessions ++ cs)
    × (r'.server.workers ≡ r.server.workers ++ cs)
    × (r'.server.server_class ≡ r.server.server_class)

module _ {World : Type 0} (os : Os World) where
  pub new_session-Traced :
      (c : ServerClass) (a : Accepted)
      → is_neg a.fd ≡ false
      → Traced c (new_session (context_for os c a))
  unfolding run
  new_session-Traced c a ok =
      (ap is_neg (context_for-client_fd os c a) ∙ ok, context_for-OfClass os c a, ([], refl))

  nth_step-contexts :
      (i : ℕ) (t : Turn) (xs : List Session) (w : World)
      → contexts (nth_step os i t xs w).0 ≡ contexts xs
  nth_step-contexts i t [] w = refl
  nth_step-contexts zero t (x ∷ xs) w = refl
  nth_step-contexts (suc i) t (x ∷ xs) w = ap (◌∷◌ x.context) (nth_step-contexts i t xs w)

  admit-workers :
      (a : Accepted) (s : Server)
      → (admit os a s).workers ≡ s.workers ++ context_for os s.server_class a ∷ []
  unfolding admit
  admit-workers a s = refl

  admit-class : (a : Accepted) (s : Server) → (admit os a s).server_class ≡ s.server_class
  unfolding admit
  admit-class a s = refl

  grown_none :
      (r r' : Running)
      → contexts r'.sessions ≡ contexts r.sessions
      → r'.server.workers ≡ r.server.workers
      → r'.server.server_class ≡ r.server.server_class
      → Grows r r'
  grown_none r r' same none_new class = (
    [],
    same ∙ sym (append-nil (contexts r.sessions)),
    none_new ∙ sym (append-nil r.server.workers),
    class,
  )

  pub advance-Grows : (e : Event) (r : Running) (w : World) → Grows r (advance os e (r, w)).0
  unfolding advance
  advance-Grows serves r w = by_phase r.phase
    where
      by_result : (c : Option Engine × World) → Grows r (set_up os r c).0
      by_result (none, w') = grown_none r (set_up os r (none, w')).0 refl refl refl
      by_result (some e, w') = grown_none r (set_up os r (some e, w')).0 refl refl refl

      by_phase : (p : Phase) → Grows r (start_at os p r w).0
      by_phase created = elim (Bool-cases (is_invalid r.server.fd)) [
        | inl e ↦ rw e (by_result (init_listening_socket os r.server.engine w))
        | inr e ↦ rw e (grown_none r (record r { phase = accepting }) refl refl refl)
      ]
      by_phase accepting =
          let a = (os.accept r.server.fd w).0 in
          let made = context_for os r.server.server_class a in
          elim (Bool-cases (is_neg a.fd)) [
            | inl bad ↦
                rw (accept_client-refused os r.server w bad)
                  (grown_none r (record r { phase = left }) refl refl refl)
            | inr ok ↦
                rw (accept_client-admits os r.server w ok, spawned-admit os a r.server)
                  (
                    made ∷ [],
                    contexts-snoc r.sessions (new_session made),
                    admit-workers a r.server,
                    admit-class a r.server,
                  )
          ]
      by_phase unset = grown_none r r refl refl refl
      by_phase left = grown_none r r refl refl refl
  advance-Grows (turns i t) r w =
      grown_none r (record r { sessions = (nth_step os i t r.sessions w).0 })
        (nth_step-contexts i t r.sessions w) refl refl

  -- There is a session for each context that was handed to the processor, in this order.
  abbrev Matches : Running → Type 0
  Matches r = contexts r.sessions ≡ r.server.workers

  advance-Matches :
      (e : Event) (r : Running) (w : World) → Matches r → Matches (advance os e (r, w)).0
  advance-Matches e r w m =
      let (cs, grown, handed, class) = advance-Grows e r w in
      grown ∙ ap (λ xs. xs ++ cs) m ∙ sym handed

  advance_all-Matches :
      (events : List Event) (r : Running) (w : World)
      → Matches r
      → Matches (advance_all os events (r, w)).0
  unfolding advance_all
  advance_all-Matches [] r w m = m
  advance_all-Matches (e ∷ events) r w m =
      let (r', w') = advance os e (r, w) in
      advance_all-Matches events r' w' (advance-Matches e r w m)

  -- Start a broker server of either class that has no worker yet, and let its threads run in any
  -- order. There is one worker for each context that was handed to the processor, in this order; and
  -- the i-th worker is what it has become by turns of its own alone. In a ThreadsTcpBroServer it keeps
  -- its client's descriptor until it closes it once, and has put what it received into the request,
  -- but for the piece in its hands; in a ThreadsTcp6BroServer it has received, sent and closed
  -- nothing.
  pub advance_all-Serviced :
      (s : Server) (events : List Event) (w w' : World) (r : Running) (i : ℕ) (x : Session)
      → s.workers ≡ []
      → advance_all os events (new_running s, w) ≡ (r, w')
      → get_elem? r.sessions i ≡ some x
      → (map (λ y. y.context) r.sessions ≡ r.server.workers)
        × ((ts : List Turn) × (x.worker ≡ run ts (new_worker x.context))
            × Serviced r.server.server_class ts x.context)
  advance_all-Serviced s events w w' r i x first ran there =
      let (ok, made, (ts, came)) =
        All-get_elem? (Traced r.server.server_class) r.sessions i x
          (subst (λ c. All (Traced c.0.server.server_class) c.0.sessions) ran
            (advance_all-Each os Traced AnyTurn (λ c t y q traced. step-Traced c t y traced)
              new_session-Traced events (new_running s) w (any events) tt))
          there in
      (
        subst (λ c. Matches c.0) ran (advance_all-Matches events (new_running s) w (sym first)),
        (ts, came, OfClass-Serviced r.server.server_class ts x.context ok made),
      )
