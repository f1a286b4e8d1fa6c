-- ===== src/Program/SharedPlain.antt =====
-- The descriptors that are open while the two servers of ThreadsEcho.cpp share one process.
use net_utils.Base.{
  ℕ, ◌+◌, ◌≤◌, ◌≡◌, ◌⊎◌, inl, inr, refl, ap, subst, true, false, Bool-cases, List, [], ◌∷◌, All,
  Option, none, some, ℤ, is_neg, arith,
}
use net_utils.Context.{invalid_fd}
use net_utils.Os.{Text, Os, OsLaws}
use net_utils.Handle.{HandleClass}
use net_utils.TcpServer.{TcpServer, accept_client, serve}
use net_utils.TcpServer.Failing.{accept_client-refused}
use net_utils.Worker.Closing.{is_fd}
use net_utils.System.Accounts.{one_if}
use net_utils.System.PlainThreads.{
  Stage, created, accepting, returned, Plain, PlainEvent, serves, turns, plain_served,
  plain_start_at, plain_advance,
}
use net_utils.System.PlainBounds.{lives, HasBegun}
use net_utils.System.PlainSteps.{TakesLimits, Kept, accept_client-accepted}
use net_utils.System.Unleaked.{plain_advance-Inv}
use net_utils.Program.{launch}
use net_utils.Program.Threads.{Program, ProgramEvent, program_run}
use net_utils.Program.Servers.{plain_threads, plain_program}
use net_utils.Program.Audit.{Audit, Joint, run-Joint}

-- How often a server holds descriptor n: as its listening socket, and in the handles that have not
-- closed it.
abbrev pub plain_share : ℕ → Plain → ℕ
plain_share n p = one_if (is_fd n p.server.fd) + lives n p.handles

abbrev Fresh : Stage → Plain → Type 0
Fresh created p = (p.server.fd ≡ invalid_fd) × (p.handles ≡ [])
Fresh _ p = All HasBegun p.handles

-- The server has got no listening socket.
abbrev NoSocket : Stage → ℤ → Type 0
NoSocket created fd = ⊥
NoSocket accepting fd = is_neg fd ≡ true
NoSocket (returned ok) fd = is_neg fd ≡ true

module _ {World : Type 0} (os : Os World) where
  abbrev Bound : (ℕ → ℕ) → World → Type 0
  Bound base w = (n : ℕ) → one_if (os.is_open w n) ≤ base n

  Bound-Kept :
      (s : Stage) (base : ℕ → ℕ) (p : Plain) (w : World)
      → Fresh s p
      → Bound (λ n. base n + plain_share n p) w
      → Kept os s base p w
  Bound-Kept created base p w (fresh, none_yet) bound = (
    fresh,
    none_yet,
    λ n. omega (arith, bound n, ap (λ fd. one_if (is_fd n fd)) fresh, ap (lives n) none_yet),
  )
  Bound-Kept accepting base p w begun bound = (begun, λ ok n. omega (arith, bound n))
  Bound-Kept (returned b) base p w begun bound = (begun, λ ok n. omega (arith, bound n))

  Kept-Bound :
      (s : Stage) (base : ℕ → ℕ) (p : Plain) (w : World)
      → Kept os s base p w
      → NoSocket s p.server.fd ⊎ (Fresh s p × Bound (λ n. base n + plain_share n p) w)
  Kept-Bound created base p w (fresh, none_yet, bound) =
      inr ((fresh, none_yet), λ n. omega (arith, bound n))
  Kept-Bound accepting base p w (begun, bound) = elim (Bool-cases (is_neg p.server.fd)) [
    | inl none_there ↦ inl none_there
    | inr ok ↦ inr (begun, λ n. let b = bound ok n in omega (arith, b))
  ]
  Kept-Bound (returned b) base p w (begun, bound) = elim (Bool-cases (is_neg p.server.fd)) [
    | inl none_there ↦ inl none_there
    | inr ok ↦ inr (begun, λ n. let b' = bound ok n in omega (arith, b'))
  ]

  plain_served-NoSocket :
      (p : Plain) (w : World)
      → p.stage ≡ accepting
      → is_neg p.server.fd ≡ true
      → NoSocket
          (plain_served os p (accept_client os p.server w)).0.stage
          (plain_served os p (accept_client os p.server w)).0.server.fd
  plain_served-NoSocket p w at none_there =
      elim (Bool-cases (is_neg (os.accept p.server.fd w).0.fd)) [
        | inl bad ↦ rw (accept_client-refused os p.server w bad) none_there
        | inr ok ↦ rw (accept_client-accepted os p.server w ok) (by_serve _)
      ]
    where
      by_serve :
          (q : Option ℤ × World)
          → NoSocket
              (plain_served os p (serve os p.server (os.accept p.server.fd w).0 q)).0.stage
              (plain_served os p (serve os p.server (os.accept p.server.fd w).0 q)).0.server.fd
      by_serve (none, w1) = none_there
      by_serve (some r, w1) = rw at none_there

  advance-NoSocket :
      (e : PlainEvent) (p : Plain) (w : World)
      → NoSocket p.stage p.server.fd
      → NoSocket (plain_advance os e (p, w)).0.stage (plain_advance os e (p, w)).0.server.fd
  unfolding plain_advance
  advance-NoSocket serves p w failed = by_stage p.stage refl failed
    where
      by_stage :
          (s : Stage)
          → p.stage ≡ s
          → NoSocket s p.server.fd
          → NoSocket (plain_start_at os s p w).0.stage (plain_start_at os s p w).0.server.fd
      by_stage created at failed = absurd failed
      by_stage accepting at failed = plain_served-NoSocket p w at failed
      by_stage (returned b) at failed = rw at failed
  advance-NoSocket (turns i t) p w failed = failed

  module _ (laws : OsLaws os) (limits : (c : HandleClass) → TakesLimits os c) where
    advance-Bound :
        (base : ℕ → ℕ) (e : PlainEvent) (p : Plain) (w : World)
        → Fresh p.stage p
        → Bound (λ n. base n + plain_share n p) w
        → NoSocket (plain_advance os e (p, w)).0.stage (plain_advance os e (p, w)).0.server.fd
          ⊎ (Fresh (plain_advance os e (p, w)).0.stage (plain_advance os e (p, w)).0
              × Bound
                  (λ n. base n + plain_share n (plain_advance os e (p, w)).0)
                  (plain_advance os e (p, w)).1)
    advance-Bound base e p w fresh bound =
        let (p', w') = plain_advance os e (p, w) in
        Kept-Bound p'.stage base p' w'
          (plain_advance-Inv os laws p.server.handle_class base e p w (limits p.server.handle_class)
            (refl, Bound-Kept p.stage base p w fresh bound)).1

    plain_audit : Audit os (plain_threads os) (λ k m. k ≤ m)
    plain_audit = record {
      share = plain_share;
      Fit = λ p. Fresh p.stage p;
      Failed = λ p. NoSocket p.stage p.server.fd;
      stays_failed = advance-NoSocket;
      keeps = advance-Bound;
    }

    abbrev JointPlain : (ℕ → ℕ) → Plain → Plain → World → Type 0
    JointPlain = Joint os (plain_threads os) (λ k m. k ≤ m) plain_audit

    launched-fd :
        (args : List Text) (c : TcpServer × TcpServer)
        → launch args ≡ inr c
        → (c.0.fd ≡ invalid_fd) × (c.1.fd ≡ invalid_fd)
    unfolding launch
    launched-fd [] c e = cc
    launched-fd (prog ∷ []) c e = cc
    launched-fd (prog ∷ port ∷ []) c e = ground arith
    launched-fd (prog ∷ port ∷ host ∷ more) c e = ground arith

    launched-Joint :
        (c : TcpServer × TcpServer) (w : World)
        → (c.0.fd ≡ invalid_fd) × (c.1.fd ≡ invalid_fd)
        → JointPlain (λ m. one_if (os.is_open w m)) (plain_program c).tcp (plain_program c).tcp6 w
    unfolding plain_audit
    launched-Joint (s, s6) w (fresh, fresh6) =
        inr (inr ((fresh, refl), (fresh6, refl), λ n. omega arith))

    NoSocket-neg : (s : Stage) (fd : ℤ) → is_neg fd ≡ false → NoSocket s fd → ⊥
    NoSocket-neg created fd ok failed = failed
    NoSocket-neg accepting fd ok failed = cc
    NoSocket-neg (returned b) fd ok failed = cc

    Joint-Bound :
        (base : ℕ → ℕ) (p p6 : Plain) (w : World)
        → is_neg p.server.fd ≡ false
        → is_neg p6.server.fd ≡ false
        → JointPlain base p p6 w
        → Bound (λ n. base n + plain_share n p + plain_share n p6) w
    unfolding plain_audit
    Joint-Bound base p p6 w ok ok6 (inl failed) =
        absurd (NoSocket-neg p.stage p.server.fd ok failed)
    Joint-Bound base p p6 w ok ok6 (inr (inl failed)) =
        absurd (NoSocket-neg p6.stage p6.server.fd ok6 failed)
    Joint-Bound base p p6 w ok ok6 (inr (inr (f, f6, bound))) = bound

    -- With a system that keeps `OsLaws` and on which each client's socket takes its time limits: run
    -- the program of the two plain servers that `launch` makes of a command line, in one process and
    -- with all threads in any order. Once both servers have a listening socket, a descriptor is open
    -- only if it was open before, is one of the two sockets, or is held by a handle of either server
    -- that has not closed it.
    pub program_run-Bounded :
        (args : List Text) (c : TcpServer × TcpServer) (events : List (ProgramEvent PlainEvent))
        (w w' : World) (p : Program Plain)
        → launch args ≡ inr c
        → program_run (plain_threads os) events (plain_program c, w) ≡ (p, w')
        → is_neg p.tcp.server.fd ≡ false
        → is_neg p.tcp6.server.fd ≡ false
        → (n : ℕ)
        → one_if (os.is_open w' n)
          ≤ one_if (os.is_open w n) + plain_share n p.tcp + plain_share n p.tcp6
    program_run-Bounded args c events w w' p launched ran ok ok6 n =
        let base : ℕ → ℕ = λ m. one_if (os.is_open w m) in
        Joint-Bound base p.tcp p.tcp6 w' ok ok6
          (subst (λ q. JointPlain base q.0.tcp q.0.tcp6 q.1) ran
            (run-Joint os (plain_threads os) (λ k m. k ≤ m) plain_audit base events
              (plain_program c) w (launched-Joint c w (launched-fd args c launched))))
          n
