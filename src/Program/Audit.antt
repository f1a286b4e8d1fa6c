-- ===== src/Program/Audit.antt =====
-- An account of the open descriptors of one process in which the threads of two servers run, given one
-- for the threads of either server beside anything else.
use net_utils.Base.{ℕ, ◌+◌, ◌≡◌, ◌⊎◌, inl, inr, subst, Bool-cases, List, [], ◌∷◌, arith}
use net_utils.Os.{Os}
use net_utils.System.Accounts.{one_if}
use net_utils.Program.Threads.{
  ServerThreads, MainPc, begin, tcp_spawned, joining_tcp, joining_tcp6, returned_zero, Program,
  ProgramEvent, of_main, of_tcp, of_tcp6, main_at, tcp_runs, tcp6_runs, program_step, program_run,
}

-- How often a server holds a descriptor, and the account that its steps keep, unless it has failed.
-- `Rel` compares what is open with what is held.
pub record Audit {World Server Event : Type 0} (os : Os World)
    (t : ServerThreads World Server Event) (Rel : ℕ → ℕ → Type 0) : Type 1 where
  pub share : ℕ → Server → ℕ
  pub Fit : Server → Type 0
  pub Failed : Server → Type 0
  pub stays_failed : (e : Event) (s : Server) (w : World) → Failed s → Failed (t.advance e (s, w)).0
  pub keeps :
      (base : ℕ → ℕ) (e : Event) (s : Server) (w : World)
      → Fit s
      → ((n : ℕ) → Rel (one_if (os.is_open w n)) (base n + share n s))
      → Failed (t.advance e (s, w)).0
        ⊎ (Fit (t.advance e (s, w)).0
            × ((n : ℕ)
                → Rel
                    (one_if (os.is_open (t.advance e (s, w)).1 n))
                    (base n + share n (t.advance e (s, w)).0)))

module _ {World Server Event : Type 0} (os : Os World) (t : ServerThreads World Server Event)
    (Rel : ℕ → ℕ → Type 0) (a : Audit os t Rel) where
  abbrev Total : (ℕ → ℕ) → World → Type 0
  Total base w = (n : ℕ) → Rel (one_if (os.is_open w n)) (base n)

  Total-cong : (b c : ℕ → ℕ) (w : World) → ((n : ℕ) → b n ≡ c n) → Total b w → Total c w
  Total-cong b c w same total = λ n. subst (Rel (one_if (os.is_open w n))) (same n) (total n)

  -- One of the two has failed, or they account for what is open together.
  abbrev pub Joint : (ℕ → ℕ) → Server → Server → World → Type 0
  Joint base s s6 w =
      a.Failed s
      ⊎ (a.Failed s6 ⊎ (a.Fit s × a.Fit s6 × Total (λ n. base n + a.share n s + a.share n s6) w))

  Joint-swap : (base : ℕ → ℕ) (s s6 : Server) (w : World) → Joint base s s6 w → Joint base s6 s w
  Joint-swap base s s6 w (inl failed) = inr (inl failed)
  Joint-swap base s s6 w (inr (inl failed)) = inl failed
  Joint-swap base s s6 w (inr (inr (f, f6, total))) =
      inr (inr (f6, f, Total-cong _ _ w (λ n. omega arith) total))

  advance-Joint :
      (base : ℕ → ℕ) (e : Event) (s s6 : Server) (w : World)
      → Joint base s s6 w
      → Joint base (t.advance e (s, w)).0 s6 (t.advance e (s, w)).1
  advance-Joint base e s s6 w (inl failed) = inl (a.stays_failed e s w failed)
  advance-Joint base e s s6 w (inr (inl failed)) = inr (inl failed)
  advance-Joint base e s s6 w (inr (inr (f, f6, total))) =
      elim (a.keeps (λ n. base n + a.share n s6) e s w f
        (Total-cong _ _ w (λ n. omega arith) total)) [
          | inl failed ↦ inl failed
          | inr (f', total') ↦
              inr (inr (f', f6, Total-cong _ _ (t.advance e (s, w)).1 (λ n. omega arith) total'))
        ]

  step-Joint :
      (base : ℕ → ℕ) (e : ProgramEvent Event) (p : Program Server) (w : World)
      → Joint base p.tcp p.tcp6 w
      → Joint base
          (program_step t e (p, w)).0.tcp
          (program_step t e (p, w)).0.tcp6
          (program_step t e (p, w)).1
  unfolding program_step
  step-Joint base of_main p w joint = main_at-Joint p.main
    where
      main_at-Joint : (pc : MainPc) → Joint base (main_at t pc p).tcp (main_at t pc p).tcp6 w
      main_at-Joint begin = joint
      main_at-Joint tcp_spawned = joint
      main_at-Joint joining_tcp = joint
      main_at-Joint joining_tcp6 = joint
      main_at-Joint returned_zero = joint
  step-Joint base (of_tcp e) p w joint = elim (Bool-cases (tcp_runs p.main)) [
    | inl runs ↦ rw runs (advance-Joint base e p.tcp p.tcp6 w joint)
    | inr idle ↦ rw idle joint
  ]
  step-Joint base (of_tcp6 e) p w joint = elim (Bool-cases (tcp6_runs p.main)) [
    | inl runs ↦ rw runs (
        Joint-swap base (t.advance e (p.tcp6, w)).0 p.tcp (t.advance e (p.tcp6, w)).1
          (advance-Joint base e p.tcp6 p.tcp w (Joint-swap base p.tcp p.tcp6 w joint)))
    | inr idle ↦ rw idle joint
  ]

  pub run-Joint :
      (base : ℕ → ℕ) (events : List (ProgramEvent Event)) (p : Program Server) (w : World)
      → Joint base p.tcp p.tcp6 w
      → Joint base
          (program_run t events (p, w)).0.tcp
          (program_run t events (p, w)).0.tcp6
          (program_run t events (p, w)).1
  unfolding program_run
  run-Joint base [] p w joint = joint
  run-Joint base (e ∷ events) p w joint =
      let (p', w') = program_step t e (p, w) in
      run-Joint base events p' w' (step-Joint base e p w joint)
