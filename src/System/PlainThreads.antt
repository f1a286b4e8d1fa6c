-- ===== src/System/PlainThreads.antt =====
-- A plain server while its threads run: the thread that has called `start` (TcpServer.cpp,
-- IPV4ThreadsTcpServer.cpp, IPV6ThreadsTcpServer.cpp) and the handle of each client, in any order, on
-- one system.
mod Tests
use net_utils.Base.{
  ℕ, zero, suc, Bool, true, false, List, [], ◌∷◌, ◌++◌, map, length, drop, Option, none, some, ℤ,
  if◌then◌else◌,
}
use net_utils.Context.{is_invalid}
use net_utils.Os.{Accepted, Os}
use net_utils.Handle.{HandleClass, Handle, Turn, step}
use net_utils.TcpServer.{TcpServer, init_socket, accept_client, handle_client}
use net_utils.System.Descriptors.{close_all}

-- Where the thread stands that has called `start`: before its test of `mFd`, in the loop of `run`,
-- or back, with this result.
pub data Stage : Type 0 where
  created accepting : Stage
  returned : (ok : Bool) → Stage

abbrev pub plain_returned : Stage → Option Bool
plain_returned created = none
plain_returned accepting = none
plain_returned (returned ok) = some ok

-- The handles stand in the order of `server.handles`.
pub record Plain : Type 0 where
  pub server : TcpServer
  pub stage : Stage
  pub handles : List Handle

abbrev pub new_plain : TcpServer → Plain
new_plain s = record { server = s; stage = created; handles = [] }

-- The handles of the clients for which a thread runs `handleClient` since.
abbrev pub handles_since : TcpServer → TcpServer → List Handle
handles_since s s' = map (handle_client s'.handle_class) (drop (length s.handles) s'.handles)

-- Which thread goes on: that of `start`, or one of the i-th handle.
pub data PlainEvent : Type 0 where
  serves : PlainEvent
  turns : ℕ → Turn → PlainEvent

module _ {World : Type 0} (os : Os World) where
  -- `initSocket` is one step.
  abbrev pub plain_set_up : Plain → Option ℤ × World → Plain × World
  plain_set_up p (none, w) = (record p { stage = returned false }, w)
  plain_set_up p (some fd, w) =
      (record p { server = record p.server { fd = fd }; stage = accepting }, w)

  -- One step of `start`: a round of `run` is one step.
  abbrev pub plain_served : Plain → Option TcpServer × World → Plain × World
  plain_served p (none, w) = (record p { stage = returned false }, w)
  plain_served p (some s, w) =
      (record p { server = s; handles = p.handles ++ handles_since p.server s }, w)

  abbrev pub plain_start_at : Stage → Plain → World → Plain × World
  plain_start_at created p w =
      if is_invalid p.server.fd
      then plain_set_up p (init_socket os p.server.handle_class p.server w)
      else (record p { stage = returned true }, w)
  plain_start_at accepting p w = plain_served p (accept_client os p.server w)
  plain_start_at (returned ok) p w = (p, w)

  -- A step of a handle; the system closes what the handle closes.
  abbrev pub handle_step : Turn → Handle → World → Handle × World
  handle_step t h w = let h' = step t h in (h', close_all os (drop (length h.closes) h'.closes) w)

  abbrev pub nth_handle_step : ℕ → Turn → List Handle → World → List Handle × World
  nth_handle_step i t [] w = ([], w)
  nth_handle_step zero t (h ∷ hs) w = let (h', w') = handle_step t h w in (h' ∷ hs, w')
  nth_handle_step (suc i) t (h ∷ hs) w = let (hs', w') = nth_handle_step i t hs w in (h ∷ hs', w')

  unfoldable pub plain_advance : PlainEvent → Plain × World → Plain × World
  plain_advance serves (p, w) = plain_start_at p.stage p w
  plain_advance (turns i t) (p, w) =
      let (hs, w') = nth_handle_step i t p.handles w in (record p { handles = hs }, w')

  unfoldable pub plain_advance_all : List PlainEvent → Plain × World → Plain × World
  unfolding plain_advance
  plain_advance_all [] c = c
  plain_advance_all (e ∷ events) c = plain_advance_all events (plain_advance e c)
