-- ===== src/System/Unleaked.antt =====
-- What stays open in a run of the threads of a plain server.
use net_utils.Base.{
  ℕ, ◌+◌, ◌≤◌, ◌≡◌, inl, inr, refl, sym, subst, ◌∙◌, false, Bool-cases, List, [], ◌∷◌, Option, none,
  some, ℤ, is_neg, arith,
}
use net_utils.Context.{invalid_fd, is_invalid}
use net_utils.Os.{Os, OsLaws}
use net_utils.Handle.{HandleClass}
use net_utils.TcpServer.{TcpServer, init_socket, serve}
use net_utils.TcpServer.Failing.{accept_client-refused}
use net_utils.Worker.Closing.{is_fd}
use net_utils.System.Accounts.{one_if}
use net_utils.System.PlainThreads.{
  Stage, created, accepting, returned, Plain, new_plain, PlainEvent, serves, turns, plain_set_up,
  plain_served, plain_start_at, plain_advance, plain_advance_all,
}
use net_utils.System.PlainBounds.{lives, Bounded}
use net_utils.System.PlainSteps.{
  TakesLimits, listening, Kept, accept_client-accepted, plain_start_at-Kept, turns-Kept,
}

module _ {World : Type 0} (os : Os World) where
  module _ (laws : OsLaws os) where
    plain_start_at-class :
        (s : Stage) (p : Plain) (w : World)
        → (plain_start_at os s p w).0.server.handle_class ≡ p.server.handle_class
    plain_start_at-class created p w = elim (Bool-cases (is_invalid p.server.fd)) [
      | inl e ↦ rw e (by_set_up (init_socket os p.server.handle_class p.server w))
      | inr e ↦ rw e refl
    ]
      where
        by_set_up :
            (q : Option ℤ × World)
            → (plain_set_up os p q).0.server.handle_class ≡ p.server.handle_class
        by_set_up (none, w1) = refl
        by_set_up (some fd, w1) = refl
    plain_start_at-class accepting p w = elim (Bool-cases (is_neg (os.accept p.server.fd w).0.fd)) [
      | inl bad ↦ rw (accept_client-refused os p.server w bad) refl
      | inr ok ↦ rw (accept_client-accepted os p.server w ok) (by_serve _)
    ]
      where
        by_serve :
            (q : Option ℤ × World)
            → (plain_served os p
                (serve os p.server (os.accept p.server.fd w).0 q)).0.server.handle_class
              ≡ p.server.handle_class
        by_serve (none, w1) = refl
        by_serve (some r, w1) = refl
    plain_start_at-class (returned ok) p w = refl

    abbrev pub Inv : HandleClass → (ℕ → ℕ) → Plain × World → Type 0
    Inv c base (p, w) = (p.server.handle_class ≡ c) × Kept os p.stage base p w

    pub plain_advance-Inv :
        (c : HandleClass) (base : ℕ → ℕ) (e : PlainEvent) (p : Plain) (w : World)
        → TakesLimits os c
        → Inv c base (p, w)
        → Inv c base (plain_advance os e (p, w))
    unfolding plain_advance
    plain_advance-Inv c base serves p w limits (same, kept) = (
      plain_start_at-class p.stage p w ∙ same,
      plain_start_at-Kept os laws p.stage base p w (subst (TakesLimits os) (sym same) limits) refl
          kept,
    )
    plain_advance-Inv c base (turns i t) p w limits (same, kept) =
        (same, turns-Kept os laws p.stage base i t p w kept)

    plain_advance_all-Inv :
        (c : HandleClass) (base : ℕ → ℕ) (events : List PlainEvent) (p : Plain) (w : World)
        → TakesLimits os c
        → Inv c base (p, w)
        → Inv c base (plain_advance_all os events (p, w))
    unfolding plain_advance_all
    plain_advance_all-Inv c base [] p w limits inv = inv
    plain_advance_all-Inv c base (e ∷ events) p w limits inv =
        let (p', w') = plain_advance os e (p, w) in
        plain_advance_all-Inv c base events p' w' limits (plain_advance-Inv c base e p w limits inv)

    Kept-Bounded :
        (s : Stage) (base : ℕ → ℕ) (p : Plain) (w : World)
        → is_neg p.server.fd ≡ false
        → Kept os s base p w
        → Bounded os (listening os base p.server.fd) p.handles w
    Kept-Bounded created base p w ok (fresh, none_yet, bound) = absurd (ground arith)
    Kept-Bounded accepting base p w ok (begun, bound) = bound ok
    Kept-Bounded (returned b) base p w ok (begun, bound) = bound ok

    -- With a system that keeps `OsLaws`: start a plain server of either class that has no
    -- descriptor, and let its threads run in any order, where each client's socket takes the time
    -- limits of the class. Once the server has a listening socket, a descriptor is open only if it
    -- was open before, is this socket, or is held by a handle that has not closed it.
    pub plain_advance_all-Bounded :
        (s : TcpServer) (events : List PlainEvent) (w w' : World) (p : Plain)
        → TakesLimits os s.handle_class
        → s.fd ≡ invalid_fd
        → plain_advance_all os events (new_plain s, w) ≡ (p, w')
        → is_neg p.server.fd ≡ false
        → (n : ℕ)
        → one_if (os.is_open w' n)
          ≤ one_if (os.is_open w n) + one_if (is_fd n p.server.fd) + lives n p.handles
    plain_advance_all-Bounded s events w w' p limits fresh ran ok n =
        let base : ℕ → ℕ = λ m. one_if (os.is_open w m) in
        let inv = subst (Inv s.handle_class base) ran (
          plain_advance_all-Inv s.handle_class base events (new_plain s) w limits
            (refl, (fresh, refl, λ m. omega arith))) in
        Kept-Bounded p.stage base p w' ok inv.1 n
