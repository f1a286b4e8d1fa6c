-- ===== src/Program/Servers.antt =====
-- The servers of the two programs: those of ThreadsEchoEngine.cpp with their workers, and those of
-- ThreadsEcho.cpp with their handles.
use net_utils.Base.{ℕ, ◌≡◌, Bool, some}
use net_utils.Os.{Os}
use net_utils.TcpServer.{TcpServer}
use net_utils.System.Threads
use net_utils.System.Threads.{Running, new_running, returned_of}
use net_utils.System.PlainThreads
use net_utils.System.PlainThreads.{Plain, new_plain, plain_returned, plain_advance}
use net_utils.Program.{echo_server, echo6_server}
use net_utils.Program.Threads.{ServerThreads, Program, new_program}

-- `main` of ThreadsEchoEngine.cpp. The two arguments are what the memory of the engines held.
abbrev pub broker_program : ℕ → ℕ → Program Running
broker_program garbage garbage6 =
    new_program (new_running (echo_server garbage)) (new_running (echo6_server garbage6))

-- `main` of ThreadsEcho.cpp, with the servers of `launch`.
abbrev pub plain_program : TcpServer × TcpServer → Program Plain
plain_program (s, s6) = new_program (new_plain s) (new_plain s6)

module _ {World : Type 0} (os : Os World) where
  pub broker_stays :
      (e : Threads.Event) (r : Running) (w : World) (b : Bool)
      → returned_of r.phase ≡ some b
      → returned_of (Threads.advance os e (r, w)).0.phase ≡ some b
  unfolding Threads.advance
  broker_stays Threads.serves r w b back = by_phase r.phase back
    where
      by_phase :
          (p : Threads.Phase)
          → returned_of p ≡ some b
          → returned_of (Threads.start_at os p r w).0.phase ≡ some b
      by_phase Threads.created e = cc
      by_phase Threads.accepting e = cc
      by_phase Threads.unset e = back
      by_phase Threads.left e = back
  broker_stays (Threads.turns i t) r w b back = back

  abbrev pub broker_threads : ServerThreads World Running Threads.Event
  broker_threads = record {
    advance = Threads.advance os;
    returned = λ r. returned_of r.phase;
    stays_returned = broker_stays;
  }

  pub plain_stays :
      (e : PlainThreads.PlainEvent) (p : Plain) (w : World) (b : Bool)
      → plain_returned p.stage ≡ some b
      → plain_returned (plain_advance os e (p, w)).0.stage ≡ some b
  unfolding plain_advance
  plain_stays PlainThreads.serves p w b back = by_stage p.stage back
    where
      by_stage :
          (s : PlainThreads.Stage)
          → plain_returned s ≡ some b
          → plain_returned (PlainThreads.plain_start_at os s p w).0.stage ≡ some b
      by_stage PlainThreads.created e = cc
      by_stage PlainThreads.accepting e = cc
      by_stage (PlainThreads.returned ok) e = back
  plain_stays (PlainThreads.turns i t) p w b back = back

  abbrev pub plain_threads : ServerThreads World Plain PlainThreads.PlainEvent
  plain_threads = record {
    advance = plain_advance os;
    returned = λ p. plain_returned p.stage;
    stays_returned = plain_stays;
  }
