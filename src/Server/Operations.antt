-- ===== src/Server/Operations.antt =====
-- Sequences of the public operations of a server, and what the setters can do before `start`.
use net_utils.Base.{ℕ, ◌≡◌, refl, Bool, List, [], ◌∷◌, Option, none, some, ℤ, All, arith}
use net_utils.Context.{invalid_fd}
use net_utils.Os.{Text, Os}
use net_utils.Engine.{
  Engine, enable_dump_request, disable_dump_request, set_listening_socket, get_listen_socket,
  set_listening_address, set_listening_port,
}
use net_utils.Server.{Server, start, stop, restart}

-- A call from outside. The numbers of `starts` and `restarts` bound the clients that the model
-- serves in that call.
pub data Op : Type 0 where
  starts restarts : ℕ → Op
  stops dumps_on dumps_off : Op
  sets_socket sets_port : ℤ → Op
  sets_address : Text → Op

abbrev pub on_engine :
    {World : Type 0} → (Engine → Engine) → Server → World → Option (Server × World)
on_engine f s w = some (record s { engine = f s.engine }, w)

abbrev pub ended : {World : Type 0} → Option (Bool × Server × World) → Option (Server × World)
ended none = none
ended (some (b, s, w)) = some (s, w)

-- `none`: the call has not returned.
unfoldable pub step : {World : Type 0} → Os World → Op → Server → World → Option (Server × World)
step os (starts fuel) s w = ended (start os fuel s w)
step os (restarts fuel) s w = ended (restart os fuel s w)
step os stops s w = some (s, stop os s w)
step os dumps_on s w = on_engine enable_dump_request s w
step os dumps_off s w = on_engine disable_dump_request s w
step os (sets_socket fd) s w = on_engine (set_listening_socket fd) s w
step os (sets_port port) s w = on_engine (set_listening_port port) s w
step os (sets_address ip) s w = on_engine (set_listening_address ip) s w

abbrev pub and_then :
    {World : Type 0}
    → Option (Server × World)
    → (Server → World → Option (Server × World))
    → Option (Server × World)
and_then none f = none
and_then (some (s, w)) f = f s w

unfoldable pub steps :
    {World : Type 0} → Os World → List Op → Server → World → Option (Server × World)
steps os [] s w = some (s, w)
steps os (op ∷ ops) s w = and_then (step os op s w) (steps os ops)

-- The operations that make no system call.
abbrev pub IsSetter : Op → Type 0
IsSetter (starts n) = ⊥
IsSetter (restarts n) = ⊥
IsSetter stops = ⊥
IsSetter _ = Unit

set_listening_socket-fresh :
    (fd : ℤ) (e : Engine) → e.fd ≡ invalid_fd → (set_listening_socket fd e).fd ≡ invalid_fd
unfolding set_listening_socket
set_listening_socket-fresh fd e fresh = ground arith

module _ {World : Type 0} (os : Os World) where
  step-fresh :
      (op : Op) (s : Server) (w : World)
      → IsSetter op
      → s.fd ≡ invalid_fd
      → (s' : Server) × (step os op s w ≡ some (s', w)) × (s'.fd ≡ invalid_fd)
  unfolding step
  step-fresh (starts n) s w setter fresh = absurd setter
  step-fresh (restarts n) s w setter fresh = absurd setter
  step-fresh stops s w setter fresh = absurd setter
  step-fresh dumps_on s w setter fresh = (_, refl, unfold enable_dump_request in fresh)
  step-fresh dumps_off s w setter fresh = (_, refl, unfold disable_dump_request in fresh)
  step-fresh (sets_socket fd) s w setter fresh =
      (_, refl, set_listening_socket-fresh fd s.engine fresh)
  step-fresh (sets_port port) s w setter fresh = (_, refl, unfold set_listening_port in fresh)
  step-fresh (sets_address ip) s w setter fresh = (_, refl, unfold set_listening_address in fresh)

  -- A server that has no listening socket cannot be given one: after any sequence of the setters,
  -- `setListeningSocket` among them, it still has none, and no system call was made.
  pub steps-fresh :
      (ops : List Op) (s : Server) (w : World)
      → All IsSetter ops
      → get_listen_socket s.engine ≡ invalid_fd
      → (s' : Server) × (steps os ops s w ≡ some (s', w))
        × (get_listen_socket s'.engine ≡ invalid_fd)
  unfolding steps get_listen_socket
  steps-fresh [] s w setters fresh = (s, refl, fresh)
  steps-fresh (op ∷ ops) s w setters fresh =
      let (s1, e1, fresh1) = step-fresh op s w setters.0 fresh in
      let (s2, e2, fresh2) = steps-fresh ops s1 w setters.1 fresh1 in (s2, rw e1 e2, fresh2)
