-- ===== src/Program/Joining.antt =====
-- The two `join`s at the end of `main` in ThreadsEcho.cpp and ThreadsEchoEngine.cpp.
use net_utils.Base.{◌≡◌, inl, inr, refl, subst, Bool, Bool-cases, List, [], ◌∷◌, Option, none, some}
use net_utils.Program.Threads.{
  ServerThreads, MainPc, begin, tcp_spawned, joining_tcp, joining_tcp6, returned_zero, Program,
  new_program, join_step, ProgramEvent, of_main, of_tcp, of_tcp6, main_at, tcp_runs, tcp6_runs,
  program_step, program_run,
}

module _ {World Server Event : Type 0} (t : ServerThreads World Server Event) where
  -- `start` is back.
  abbrev pub IsBack : Server → Type 0
  IsBack s = (b : Bool) × (t.returned s ≡ some b)

  -- The main thread has waited for the servers that it has passed.
  abbrev Passed : MainPc → Server → Server → Type 0
  Passed joining_tcp6 s s6 = IsBack s
  Passed returned_zero s s6 = IsBack s × IsBack s6
  Passed _ s s6 = Unit

  join_step-Passed :
      (s s6 : Server) (o : Option Bool)
      → t.returned s ≡ o
      → Passed (join_step o joining_tcp joining_tcp6) s s6
  join_step-Passed s s6 none e = tt
  join_step-Passed s s6 (some b) e = (b, e)

  join_step6-Passed :
      (s s6 : Server) (o : Option Bool)
      → IsBack s
      → t.returned s6 ≡ o
      → Passed (join_step o joining_tcp6 returned_zero) s s6
  join_step6-Passed s s6 none back e = back
  join_step6-Passed s s6 (some b) back e = (back, (b, e))

  advance-IsBack : (e : Event) (s : Server) (w : World) → IsBack s → IsBack (t.advance e (s, w)).0
  advance-IsBack e s w (b, back) = (b, t.stays_returned e s w b back)

  Passed-tcp :
      (pc : MainPc) (e : Event) (s s6 : Server) (w : World)
      → Passed pc s s6
      → Passed pc (t.advance e (s, w)).0 s6
  Passed-tcp joining_tcp6 e s s6 w back = advance-IsBack e s w back
  Passed-tcp returned_zero e s s6 w (back, back6) = (advance-IsBack e s w back, back6)
  Passed-tcp begin e s s6 w p = tt
  Passed-tcp tcp_spawned e s s6 w p = tt
  Passed-tcp joining_tcp e s s6 w p = tt

  Passed-tcp6 :
      (pc : MainPc) (e : Event) (s s6 : Server) (w : World)
      → Passed pc s s6
      → Passed pc s (t.advance e (s6, w)).0
  Passed-tcp6 returned_zero e s s6 w (back, back6) = (back, advance-IsBack e s6 w back6)
  Passed-tcp6 joining_tcp6 e s s6 w back = back
  Passed-tcp6 begin e s s6 w p = tt
  Passed-tcp6 tcp_spawned e s s6 w p = tt
  Passed-tcp6 joining_tcp e s s6 w p = tt

  abbrev Inv : Program Server → Type 0
  Inv p = Passed p.main p.tcp p.tcp6

  main_at-Inv :
      (pc : MainPc) (p : Program Server)
      → p.main ≡ pc
      → Passed pc p.tcp p.tcp6
      → Inv (main_at t pc p)
  main_at-Inv begin p at passed = tt
  main_at-Inv tcp_spawned p at passed = tt
  main_at-Inv joining_tcp p at passed = join_step-Passed p.tcp p.tcp6 (t.returned p.tcp) refl
  main_at-Inv joining_tcp6 p at back = join_step6-Passed p.tcp p.tcp6 (t.returned p.tcp6) back refl
  main_at-Inv returned_zero p at passed = rw at passed

  step-Inv :
      (e : ProgramEvent Event) (p : Program Server) (w : World)
      → Inv p
      → Inv (program_step t e (p, w)).0
  unfolding program_step
  step-Inv of_main p w passed = main_at-Inv p.main p refl passed
  step-Inv (of_tcp e) p w passed = elim (Bool-cases (tcp_runs p.main)) [
    | inl runs ↦ rw runs (Passed-tcp p.main e p.tcp p.tcp6 w passed)
    | inr idle ↦ rw idle passed
  ]
  step-Inv (of_tcp6 e) p w passed = elim (Bool-cases (tcp6_runs p.main)) [
    | inl runs ↦ rw runs (Passed-tcp6 p.main e p.tcp p.tcp6 w passed)
    | inr idle ↦ rw idle passed
  ]

  run-Inv :
      (events : List (ProgramEvent Event)) (p : Program Server) (w : World)
      → Inv p
      → Inv (program_run t events (p, w)).0
  unfolding program_run
  run-Inv [] p w passed = passed
  run-Inv (e ∷ events) p w passed =
      let (p', w') = program_step t e (p, w) in run-Inv events p' w' (step-Inv e p w passed)

  -- Whatever order the threads of the program run in, `main` returns 0 only after the `start` of both
  -- servers has returned.
  pub returned_zero-IsBack :
      (s s6 : Server) (events : List (ProgramEvent Event)) (w w' : World) (p : Program Server)
      → program_run t events (new_program s s6, w) ≡ (p, w')
      → p.main ≡ returned_zero
      → IsBack p.tcp × IsBack p.tcp6
  returned_zero-IsBack s s6 events w w' p ran ended =
      subst (λ pc. Passed pc p.tcp p.tcp6) ended
        (subst (λ c. Inv c.0) ran (run-Inv events (new_program s s6) w tt))

  abbrev pub main_turns : List (ProgramEvent Event)
  main_turns = of_main ∷ of_main ∷ of_main ∷ of_main ∷ []

  -- Once the `start` of both servers has returned, the main thread returns 0 within four turns, from
  -- wherever it stands, and changes nothing else.
  pub IsBack-returned_zero :
      (p : Program Server) (w : World)
      → IsBack p.tcp
      → IsBack p.tcp6
      → program_run t main_turns (p, w) ≡ (record p { main = returned_zero }, w)
  unfolding program_run program_step
  IsBack-returned_zero p w (b, back) (b6, back6) = by_main p.main
    where
      by_main :
          (pc : MainPc)
          → program_run t main_turns (record p { main = pc }, w)
            ≡ (record p { main = returned_zero }, w)
      by_main begin = rw (back, back6) refl
      by_main tcp_spawned = rw (back, back6) refl
      by_main joining_tcp = rw (back, back6) refl
      by_main joining_tcp6 = rw back6 refl
      by_main returned_zero = refl
