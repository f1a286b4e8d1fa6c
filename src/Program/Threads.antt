-- ===== src/Program/Threads.antt =====
-- The threads of the two programs: `main` of
-- src/NetUtils/services/tcp/multi_threads/ThreadsEcho.cpp and of
-- src/NetUtils/services/tcp/multi_threads/utils/ThreadsEchoEngine.cpp starts two servers, each in a
-- thread of its own, and joins the two. What a server's threads do is an interface; Program/Servers has
-- the plain servers of the one program and the broker servers of the other.
mod Tests
use net_utils.Base.{ℕ, ◌≡◌, Bool, true, false, if◌then◌else◌, Option, none, some, List, [], ◌∷◌}

-- A server and its threads: a step of one of them, and what `start` has returned, which stays.
pub record ServerThreads (World Server Event : Type 0) : Type 0 where
  pub advance : Event → Server × World → Server × World
  pub returned : Server → Option Bool
  pub stays_returned :
      (e : Event) (s : Server) (w : World) (b : Bool)
      → returned s ≡ some b
      → returned (advance e (s, w)).0 ≡ some b

-- Where the main thread stands: the threads are started and then joined in this order.
pub data MainPc : Type 0 where
  begin tcp_spawned joining_tcp joining_tcp6 returned_zero : MainPc

pub record Program (Server : Type 0) : Type 0 where
  pub main : MainPc
  pub tcp : Server
  pub tcp6 : Server

abbrev pub new_program : {Server : Type 0} → Server → Server → Program Server
new_program s s6 = record { main = begin; tcp = s; tcp6 = s6 }

pub data ProgramEvent (Event : Type 0) : Type 0 where
  of_main : ProgramEvent Event
  of_tcp of_tcp6 : Event → ProgramEvent Event

-- `join`: the main thread goes on if the thread that has called `start` is back.
abbrev pub join_step : Option Bool → MainPc → MainPc → MainPc
join_step none here next = here
join_step (some b) here next = next

-- Does the thread of the server run? A return from `main` ends the process.
abbrev pub tcp_runs : MainPc → Bool
tcp_runs begin = false
tcp_runs tcp_spawned = true
tcp_runs joining_tcp = true
tcp_runs joining_tcp6 = true
tcp_runs returned_zero = false

abbrev pub tcp6_runs : MainPc → Bool
tcp6_runs begin = false
tcp6_runs tcp_spawned = false
tcp6_runs joining_tcp = true
tcp6_runs joining_tcp6 = true
tcp6_runs returned_zero = false

module _ {World Server Event : Type 0} (t : ServerThreads World Server Event) where
  -- The main thread.
  abbrev pub main_at : MainPc → Program Server → Program Server
  main_at begin p = record p { main = tcp_spawned }
  main_at tcp_spawned p = record p { main = joining_tcp }
  main_at joining_tcp p = record p { main = join_step (t.returned p.tcp) joining_tcp joining_tcp6 }
  main_at joining_tcp6 p = record p {
    main = join_step (t.returned p.tcp6) joining_tcp6 returned_zero;
  }
  main_at returned_zero p = p

  unfoldable pub program_step : ProgramEvent Event → Program Server × World → Program Server × World
  program_step of_main (p, w) = (main_at p.main p, w)
  program_step (of_tcp e) (p, w) =
      let (s, w') = t.advance e (p.tcp, w) in
      if tcp_runs p.main then (record p { tcp = s }, w') else (p, w)
  program_step (of_tcp6 e) (p, w) =
      let (s, w') = t.advance e (p.tcp6, w) in
      if tcp6_runs p.main then (record p { tcp6 = s }, w') else (p, w)

  unfoldable pub program_run :
      List (ProgramEvent Event) → Program Server × World → Program Server × World
  unfolding program_step
  program_run [] c = c
  program_run (e ∷ events) c = program_run events (program_step e c)
