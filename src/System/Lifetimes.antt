-- ===== src/System/Lifetimes.antt =====
-- How long the contexts of the clients live (the shared pointers of src/NetUtils/SocketContext.h): the
-- queue of the server keeps each one while the server lives, and the thread that
-- ThreadsTcpBroProcessor.cpp has detached keeps it until `doWork` is back. In ThreadsEchoEngine.cpp
-- the server goes when its `start` has returned.
pub mod Picks
pub mod Neat
pub mod Ledger
pub mod Owners
pub mod Destructors
pub mod Release
mod Tests
use net_utils.Base.{
  ℕ, zero, suc, Bool, true, false, ◌&&◌, if◌then◌else◌, List, [], ◌∷◌, ◌++◌, Option, none, some,
}
use net_utils.Os.{Os}
use net_utils.Context.{destroy}
use net_utils.Server.{Server}
use net_utils.Worker.{MainPc, returned_true}
use net_utils.System.Threads.{
  Phase, created, accepting, unset, left, Session, context_now, Running, new_running, Event,
  advance, destroy_all,
}

-- The sessions of `running` are those whose thread has not ended. A context that only the queue of
-- the server keeps is in `queued`, with what its worker has made of it, and one whose destructor has
-- run is in `freed`.
pub record Process : Type 0 where
  pub running : Running
  pub queued : List Session
  pub freed : List Session
  pub has_server : Bool

abbrev pub new_process : Server → Process
new_process s = record { running = new_running s; queued = []; freed = []; has_server = true }

-- A thread goes on, that of the i-th worker ends, or the thread of `start` drops the server.
pub data Happening : Type 0 where
  of_thread : Event → Happening
  thread_ends : ℕ → Happening
  drops_server : Happening

-- `doWork` is back.
abbrev pub is_over : MainPc → Bool
is_over returned_true = true
is_over _ = false

-- `start` is back.
abbrev pub is_back : Phase → Bool
is_back created = false
is_back accepting = false
is_back unset = true
is_back left = true

abbrev keeps_first : Session → Option (Session × List Session) → Option (Session × List Session)
keeps_first x none = none
keeps_first x (some (y, rest)) = some (y, x ∷ rest)

-- The i-th session, if its worker's `doWork` is back, and the others.
abbrev pub pick : ℕ → List Session → Option (Session × List Session)
pick i [] = none
pick zero (x ∷ xs) = if is_over x.worker.main then some (x, xs) else none
pick (suc i) (x ∷ xs) = keeps_first x (pick i xs)

module _ {World : Type 0} (os : Os World) where
  -- The thread of session x gives up its reference; the last one destroys the context.
  abbrev pub release : Bool → Session → List Session → Process → World → Process × World
  release true x rest p w =
      (record p { running = record p.running { sessions = rest }; queued = p.queued ++ x ∷ [] }, w)
  release false x rest p w = (
    record p { running = record p.running { sessions = rest }; freed = p.freed ++ x ∷ [] },
    destroy os (context_now x) w,
  )

  abbrev pub thread_end : Option (Session × List Session) → Process → World → Process × World
  thread_end none p w = (p, w)
  thread_end (some (x, rest)) p w = release p.has_server x rest p w

  -- The destructor of the server: its queue goes, and each context that nothing else keeps.
  abbrev pub drop_server : Process → World → Process × World
  drop_server p w = (
    record p { queued = []; freed = p.freed ++ p.queued; has_server = false },
    destroy_all os p.queued w,
  )

  unfoldable pub happen : Happening → Process × World → Process × World
  unfolding advance
  happen (of_thread e) (p, w) =
      let (r, w') = advance os e (p.running, w) in (record p { running = r }, w')
  happen (thread_ends i) (p, w) = thread_end (pick i p.running.sessions) p w
  happen drops_server (p, w) =
      if p.has_server && is_back p.running.phase then drop_server p w else (p, w)

  unfoldable pub happen_all : List Happening → Process × World → Process × World
  unfolding happen
  happen_all [] c = c
  happen_all (e ∷ events) c = happen_all events (happen e c)
