-- ===== src/System/PlainEcho.antt =====
-- What the clients of a plain server (IPV4ThreadsTcpServer.cpp, IPV6ThreadsTcpServer.cpp) get back while
-- its threads and theirs run in any order.
use net_utils.Base.{ℕ, zero, suc, ◌≡◌, List, [], ◌∷◌}
use net_utils.Os.{Accepted, Os}
use net_utils.Handle.{HandleClass, Handle, Turn}
use net_utils.Handle.Own.{OwnOrNone}
use net_utils.Handle.Echo.{Echoing, HonestAt, CleanAt}
use net_utils.TcpServer.{TcpServer}
use net_utils.System.PlainThreads.{Plain, PlainEvent, serves, turns, plain_advance}

-- What `send` answers the i-th handle is possible, and for the IPv6 class its client sends no zero
-- byte, no `recv` fills the array and no `send` takes nothing.
abbrev pub FineTurn : ℕ → Turn → List Handle → Type 0
FineTurn i t [] = Unit
FineTurn zero t (h ∷ hs) = HonestAt t h.writer × CleanAt h.handle_class t h.writer
FineTurn (suc i) t (h ∷ hs) = FineTurn i t hs

abbrev pub Fine : PlainEvent → Plain → Type 0
Fine serves p = Unit
Fine (turns i t) p = FineTurn i t p.handles

-- A handle for each client that was served, in this order.
abbrev Serves : HandleClass → List Handle → List Accepted → Type 0
Serves c [] [] = Unit
Serves c [] (a ∷ clients) = ⊥
Serves c (h ∷ hs) [] = ⊥
Serves c (h ∷ hs) (a ∷ clients) = Echoing c h × OwnOrNone h a.fd × Serves c hs clients

module _ {World : Type 0} (os : Os World) where
  abbrev pub AllFine : List PlainEvent → Plain × World → Type 0
  AllFine [] c = Unit
  AllFine (e ∷ events) c = Fine e c.0 × AllFine events (plain_advance os e c)

  abbrev Inv : HandleClass → Plain → Type 0
  Inv c p = (p.server.handle_class ≡ c) × Serves c p.handles p.server.handles
