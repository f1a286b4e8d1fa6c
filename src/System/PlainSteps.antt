-- ===== src/System/PlainSteps.antt =====
-- What the steps of a plain server leave open, by the stage of its `start`.
use net_utils.Base.{
  ℕ, ◌+◌, ◌≤◌, ◌≡◌, inl, inr, refl, ap, true, false, Bool-cases, List, [], ◌∷◌, ◌++◌, map,
  drop_front, Option, none, some, All, All-snoc, ℤ, pos, negsuc, is_neg, arith,
}
use net_utils.Context.{invalid_fd, is_invalid}
use net_utils.Os.{Accepted, Os, OsLaws}
use net_utils.Handle.{HandleClass, Handle, new_handle, Turn}
use net_utils.TcpServer.{TcpServer, init_socket, set_timeouts, serve, accept_client, handle_client}
use net_utils.TcpServer.Failing.{set_timeouts-keeps, accept_client-refused}
use net_utils.Worker.Closing.{is_fd}
use net_utils.System.Accounts.{one_if}
use net_utils.System.Ledger.{opened_one, is_fd-neg}
use net_utils.System.Plain.{init_socket-Opens}
use net_utils.System.PlainThreads.{
  Stage, created, accepting, returned, Plain, handles_since, plain_set_up, plain_served,
  plain_start_at, nth_handle_step,
}
use net_utils.System.PlainBounds.{
  lives, lives-append, HasBegun, Bounded, nth_handle_step-Bounded, nth_handle_step-HasBegun,
}

module _ {World : Type 0} (os : Os World) where
  -- Every client's socket takes the time limits that the class sets.
  abbrev pub TakesLimits : HandleClass → Type 0
  TakesLimits c = (fd : ℤ) (w : World) → (r : ℤ) × ((set_timeouts os c fd w).0 ≡ some r)

  -- The descriptors that were open before `start`, and the listening socket.
  abbrev pub listening : (ℕ → ℕ) → ℤ → ℕ → ℕ
  listening base fd n = base n + one_if (is_fd n fd)

  -- Of a server with a listening socket nothing is open that neither it nor a handle holds.
  abbrev Sealed : (ℕ → ℕ) → Plain → World → Type 0
  Sealed base p w =
      All HasBegun p.handles
      × (is_neg p.server.fd ≡ false → Bounded os (listening base p.server.fd) p.handles w)

  abbrev pub Kept : Stage → (ℕ → ℕ) → Plain → World → Type 0
  Kept created base p w =
      (p.server.fd ≡ invalid_fd) × (p.handles ≡ []) × ((n : ℕ) → one_if (os.is_open w n) ≤ base n)
  Kept accepting base p w = Sealed base p w
  Kept (returned ok) base p w = Sealed base p w

  pub accept_client-accepted :
      (s : TcpServer) (w : World)
      → is_neg (os.accept s.fd w).0.fd ≡ false
      → accept_client os s w
        ≡ serve os s
            (os.accept s.fd w).0
            (set_timeouts os s.handle_class (os.accept s.fd w).0.fd (os.accept s.fd w).1)
  unfolding accept_client
  accept_client-accepted s w ok = rw ok refl

  pub handles_since-one :
      (s : TcpServer) (a : Accepted)
      → handles_since s (record s { handles = s.handles ++ a ∷ [] })
        ≡ new_handle s.handle_class a.fd ∷ []
  unfolding handle_client
  handles_since-one s a = ap (map (handle_client s.handle_class)) (drop_front s.handles (a ∷ []))

  module _ (laws : OsLaws os) where
    refused-Bounded :
        (others : ℕ → ℕ) (hs : List Handle) (fd : ℤ) (w : World)
        → is_neg (os.accept fd w).0.fd ≡ true
        → Bounded os others hs w
        → Bounded os others hs (os.accept fd w).1
    refused-Bounded others hs fd w bad bound = λ n. omega (
      arith,
      bound n,
      opened_one os (os.accept fd w).0.fd w (os.accept fd w).1 n (laws.accept_opens fd w),
      ap one_if (is_fd-neg os n (os.accept fd w).0.fd bad),
    )

    accepted-Bounded :
        (others : ℕ → ℕ) (hs : List Handle) (c : HandleClass) (fd : ℤ) (w w' : World)
        → Bounded os others hs w
        → ((n : ℕ) → os.is_open w' n ≡ os.is_open (os.accept fd w).1 n)
        → Bounded os others (hs ++ new_handle c (os.accept fd w).0.fd ∷ []) w'
    accepted-Bounded others hs c fd w w' bound same = λ n.
        let a = (os.accept fd w).0 in
        omega (
          arith,
          bound n,
          lives-append n hs (new_handle c a.fd ∷ []),
          ap one_if (same n),
          opened_one os a.fd w (os.accept fd w).1 n (laws.accept_opens fd w),
          new_live n c a.fd,
        )
      where
        new_live :
            (n : ℕ) (c : HandleClass) (fd : ℤ)
            → lives n (new_handle c fd ∷ []) ≡ one_if (is_fd n fd)
        new_live n c fd = ground arith

    plain_served-Kept :
        (base : ℕ → ℕ) (p : Plain) (w : World)
        → TakesLimits p.server.handle_class
        → p.stage ≡ accepting
        → Sealed base p w
        → Kept
            (plain_served os p (accept_client os p.server w)).0.stage
            base
            (plain_served os p (accept_client os p.server w)).0
            (plain_served os p (accept_client os p.server w)).1
    plain_served-Kept base p w limits at (begun, bound) = elim (Bool-cases (is_neg a.fd)) [
      | inl bad ↦ rw (accept_client-refused os p.server w bad) (
        begun,
        λ ok. refused-Bounded (listening base p.server.fd) p.handles p.server.fd w bad (bound ok),
      )
      | inr ok ↦ rw (accept_client-accepted p.server w ok) (
          by_limits (set_timeouts os c a.fd w1) (limits a.fd w1).1
            (λ n. set_timeouts-keeps os laws c a.fd w1 n))
    ]
      where
        c : HandleClass
        c = p.server.handle_class

        a : Accepted
        a = (os.accept p.server.fd w).0

        w1 : World
        w1 = (os.accept p.server.fd w).1

        by_limits :
            (q : Option ℤ × World)
            → q.0 ≡ some (limits a.fd w1).0
            → ((n : ℕ) → os.is_open q.1 n ≡ os.is_open w1 n)
            → Kept
                (plain_served os p (serve os p.server a q)).0.stage
                base
                (plain_served os p (serve os p.server a q)).0
                (plain_served os p (serve os p.server a q)).1
        by_limits (none, w2) took same = cc
        by_limits (some r, w2) took same =
            rw (at, handles_since-one p.server a)
              (
                All-snoc HasBegun p.handles (new_handle c a.fd) begun (refl, refl),
                λ ok.
                    accepted-Bounded (listening base p.server.fd) p.handles c p.server.fd w w2
                      (bound ok) same,
              )

    plain_set_up-Kept :
        (base : ℕ → ℕ) (p : Plain) (w : World)
        → Kept created base p w
        → Kept
            (plain_start_at os created p w).0.stage
            base
            (plain_start_at os created p w).0
            (plain_start_at os created p w).1
    plain_set_up-Kept base p w (fresh, none_yet, bound) =
        let invalid : is_invalid p.server.fd ≡ true = ap is_invalid fresh in
        rw invalid (by_result (init_socket os p.server.handle_class p.server w) refl)
      where
        by_result :
            (q : Option ℤ × World)
            → init_socket os p.server.handle_class p.server w ≡ q
            → Kept
                (plain_set_up os p q).0.stage
                base
                (plain_set_up os p q).0
                (plain_set_up os p q).1
        by_result (none, w1) made = rw (none_yet, fresh) (tt, λ ok. absurd (ground arith))
        by_result (some (negsuc k), w1) made = rw none_yet (tt, λ ok. absurd (ground arith))
        by_result (some (pos n), w1) made = rw none_yet (
          tt,
          λ ok m. omega (
            arith,
            bound m,
            opened_one os (pos n) w w1 m (init_socket-Opens os laws p.server n w w1 fresh made),
          ),
        )

    pub plain_start_at-Kept :
        (s : Stage) (base : ℕ → ℕ) (p : Plain) (w : World)
        → TakesLimits p.server.handle_class
        → p.stage ≡ s
        → Kept s base p w
        → Kept
            (plain_start_at os s p w).0.stage
            base
            (plain_start_at os s p w).0
            (plain_start_at os s p w).1
    plain_start_at-Kept created base p w limits at kept = plain_set_up-Kept base p w kept
    plain_start_at-Kept accepting base p w limits at kept =
        plain_served-Kept base p w limits at kept
    plain_start_at-Kept (returned ok) base p w limits at kept = rw at kept

    pub turns-Kept :
        (s : Stage) (base : ℕ → ℕ) (i : ℕ) (t : Turn) (p : Plain) (w : World)
        → Kept s base p w
        → Kept s base
            (record p { handles = (nth_handle_step os i t p.handles w).0 })
            (nth_handle_step os i t p.handles w).1
    turns-Kept created base i t p w (fresh, none_yet, bound) = rw none_yet (fresh, refl, bound)
    turns-Kept accepting base i t p w (begun, bound) = (
      nth_handle_step-HasBegun os laws i t p.handles w begun,
      λ ok.
          nth_handle_step-Bounded os laws (listening base p.server.fd) i t p.handles w begun
            (bound ok),
    )
    turns-Kept (returned b) base i t p w (begun, bound) = (
      nth_handle_step-HasBegun os laws i t p.handles w begun,
      λ ok.
          nth_handle_step-Bounded os laws (listening base p.server.fd) i t p.handles w begun
            (bound ok),
    )
