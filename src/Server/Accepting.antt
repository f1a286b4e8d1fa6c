-- ===== src/Server/Accepting.antt =====
-- The accept loop of the two servers.
use net_utils.Base.{
  ℕ, zero, suc, ◌<◌, ◌≡◌, refl, sym, ap, ◌∙◌, inl, inr, Bool, true, false, Bool-cases, List, [],
  ◌∷◌, ◌++◌, map, append_assoc, append-nil, Option, none, some, ℤ, is_neg, All, arith,
}
use net_utils.Context.{SocketContext, ipv4, ipv6}
use net_utils.Os.{Accepted, Os}
use net_utils.Server.{
  ServerClass, threads_tcp, threads_tcp6, Server, context_for, admit, accept_client, run,
}

-- A new context of the class that the server makes.
abbrev pub OfClass : ServerClass → SocketContext → Type 0
OfClass threads_tcp c = (a : ℕ) × (p : ℕ) × (c.client_addr ≡ ipv4 a p) × (c.request ≡ [])
OfClass threads_tcp6 c = (a : ℕ) × (p : ℕ) × (c.client_addr ≡ ipv6 a p) × (c.request ≡ [])

-- What a finished `run` has done with the clients that it accepted.
pub record Serves (s : Server) (b : Bool) (s' : Server) : Type 0 where
  pub clients : List SocketContext
  pub failed : b ≡ false
  pub queued :
      s'.engine ≡ record s.engine { socket_context_queue = s.socket_context_queue ++ clients }
  pub handed : s'.workers ≡ s.workers ++ clients
  pub valid : All (λ c. is_neg c.client_fd ≡ false) clients
  pub of_class : All (OfClass s.server_class) clients

-- A run that has ended at once.
Serves-none :
    {World : Type 0} (s : Server) {b : Bool} {s' : Server} {w w' : World}
    → ◌≡◌ {A = Option (Bool × Server × World)} (some (false, s, w)) (some (b, s', w'))
    → Serves s b s'
Serves-none s e = record {
  clients = [];
  failed = cc;
  queued = rw append-nil (cc);
  handed = rw append-nil (cc);
  valid = tt;
  of_class = tt;
}

module _ {World : Type 0} (os : Os World) where
  pub admit-fd : (a : Accepted) (s : Server) → (admit os a s).fd ≡ s.fd
  unfolding admit
  admit-fd a s = refl

  pub context_for-client_fd :
      (c : ServerClass) (a : Accepted) → (context_for os c a).client_fd ≡ a.fd
  context_for-client_fd threads_tcp a = refl
  context_for-client_fd threads_tcp6 a = refl

  pub context_for-OfClass : (c : ServerClass) (a : Accepted) → OfClass c (context_for os c a)
  context_for-OfClass threads_tcp a = (a.addr, a.port, refl, refl)
  context_for-OfClass threads_tcp6 a = (a.addr, a.port, refl, refl)

  -- One more client in front of those that were served after it.
  Serves-admit :
      (a : Accepted) (s : Server) {b : Bool} {s' : Server}
      → is_neg a.fd ≡ false
      → Serves (admit os a s) b s'
      → Serves s b s'
  unfolding admit
  Serves-admit a s ok v = record {
    clients = context_for os s.server_class a ∷ v.clients;
    failed = v.failed;
    queued =
        v.queued
        ∙ ap (λ q. record s.engine { socket_context_queue = q })
            (append_assoc s.socket_context_queue (context_for os s.server_class a ∷ []) v.clients);
    handed = v.handed ∙ append_assoc s.workers (context_for os s.server_class a ∷ []) v.clients;
    valid = (rw (context_for-client_fd s.server_class a) ok, v.valid);
    of_class = (context_for-OfClass s.server_class a, v.of_class);
  }

  pub accept_client-refused :
      (s : Server) (w : World)
      → is_neg (os.accept s.fd w).0.fd ≡ true
      → accept_client os s w ≡ (none, (os.accept s.fd w).1)
  unfolding accept_client
  accept_client-refused s w bad = rw bad refl

  pub accept_client-admits :
      (s : Server) (w : World)
      → is_neg (os.accept s.fd w).0.fd ≡ false
      → accept_client os s w ≡ (some (admit os (os.accept s.fd w).0 s), (os.accept s.fd w).1)
  unfolding accept_client
  accept_client-admits s w ok = rw ok refl

  abbrev after_round : ℕ → Server → Option Server × World → Option (Bool × Server × World)
  after_round fuel s r = elim r.0 [ none ↦ some (false, s, r.1) | some s' ↦ run os fuel s' r.1 ]

  -- A round of `run` by the answer of `accept`.
  pub run-refused :
      (fuel : ℕ) (s : Server) (w : World)
      → is_neg (os.accept s.fd w).0.fd ≡ true
      → run os (suc fuel) s w ≡ some (false, s, (os.accept s.fd w).1)
  unfolding run
  run-refused fuel s w bad = ap (after_round fuel s) (accept_client-refused s w bad)

  pub run-admits :
      (fuel : ℕ) (s : Server) (w : World)
      → is_neg (os.accept s.fd w).0.fd ≡ false
      → run os (suc fuel) s w ≡ run os fuel (admit os (os.accept s.fd w).0 s) (os.accept s.fd w).1
  unfolding run
  run-admits fuel s w ok = ap (after_round fuel s) (accept_client-admits s w ok)

  -- `run` returns only false. Every client that it accepted until then is put into the queue and
  -- handed to a worker thread, once each and in the same order, as a new context of the server's
  -- class with a valid descriptor; nothing else of the engine changes, its counters included.
  pub run-Serves :
      (fuel : ℕ) (s : Server) (w : World) {b : Bool} {s' : Server} {w' : World}
      → run os fuel s w ≡ some (b, s', w')
      → Serves s b s'
  unfolding run
  run-Serves zero s w e = cc
  run-Serves (suc fuel) s w {b} {s'} {w'} e = elim (Bool-cases (is_neg (os.accept s.fd w).0.fd)) [
    | inl bad ↦ Serves-none s (sym (run-refused fuel s w bad) ∙ e)
    | inr ok ↦ Serves-admit (os.accept s.fd w).0 s ok (
        run-Serves fuel (admit os (os.accept s.fd w).0 s) (os.accept s.fd w).1
          (sym (run-admits fuel s w ok) ∙ e))
  ]

  -- `accept` on the descriptor succeeds k times in a row, and fails then.
  abbrev pub FailsAt : ℕ → ℤ → World → Type 0
  FailsAt zero fd w = is_neg (os.accept fd w).0.fd ≡ true
  FailsAt (suc k) fd w = (is_neg (os.accept fd w).0.fd ≡ false) × FailsAt k fd (os.accept fd w).1

  -- The clients that `accept` gives in k calls, and the system after the call that follows.
  abbrev pub arrivals : ℕ → ℤ → World → List Accepted
  arrivals zero fd w = []
  arrivals (suc k) fd w = (os.accept fd w).0 ∷ arrivals k fd (os.accept fd w).1

  abbrev pub after : ℕ → ℤ → World → World
  after zero fd w = (os.accept fd w).1
  after (suc k) fd w = after k fd (os.accept fd w).1

  -- The server with a context for each of the clients, in the queue and with a worker.
  abbrev pub with_clients : Server → List Accepted → Server
  with_clients s clients = record s {
    engine = record s.engine {
      socket_context_queue = s.socket_context_queue ++ map (context_for os s.server_class) clients;
    };
    workers = s.workers ++ map (context_for os s.server_class) clients;
  }

  with_clients-nil : (s : Server) → with_clients s [] ≡ s
  with_clients-nil s = simp append-nil

  with_clients-admit :
      (s : Server) (a : Accepted) (clients : List Accepted)
      → with_clients (admit os a s) clients ≡ with_clients s (a ∷ clients)
  unfolding admit
  with_clients-admit s a clients = simp append_assoc

  -- If `accept` fails after k clients, and the fuel is more than k, `run` returns false, with a
  -- context for each of these clients, in the order of arrival, in the queue and with a worker.
  pub run-returns :
      (k fuel : ℕ) (s : Server) (w : World)
      → k < fuel
      → FailsAt k s.fd w
      → run os fuel s w ≡ some (false, with_clients s (arrivals k s.fd w), after k s.fd w)
  unfolding admit
  run-returns k zero s w lt fails = absurd (omega arith)
  run-returns zero (suc fuel) s w lt fails =
      run-refused fuel s w fails
      ∙ ap (λ t. some (false, t, (os.accept s.fd w).1)) (sym (with_clients-nil s))
  run-returns (suc k) (suc fuel) s w lt fails =
      let (a, w') = os.accept s.fd w in
      run-admits fuel s w fails.0
      ∙ run-returns k fuel (admit os a s) w' (omega arith) fails.1
      ∙ ap (λ t. some (false, t, after k s.fd w')) (with_clients-admit s a (arrivals k s.fd w'))
