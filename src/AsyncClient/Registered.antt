-- ===== src/AsyncClient/Registered.antt =====
-- Which callbacks an AsyncClient has.
use net_utils.Base.{ℕ, ◌≡◌, refl, ap, ◌∙◌, List, [], ◌∷◌, Option, none, some}
use net_utils.Os.{Text}
use net_utils.AsyncClient.Impl.{AsyncClientImpl}
use net_utils.AsyncClient.{
  AsyncClient, new_async_client, Op, registers_connected, registers_read, registers_write, connects,
  step, steps,
}

abbrev pub connected : Op → Option ℕ
connected (registers_connected cb) = some cb
connected _ = none

abbrev pub reading : Op → Option ℕ
reading (registers_read cb) = some cb
reading _ = none

abbrev pub writing : Op → Option ℕ
writing (registers_write cb) = some cb
writing _ = none

abbrev pub or_else : Option ℕ → Option ℕ → Option ℕ
or_else none b = b
or_else (some a) b = some a

or_else-or_else : (a b c : Option ℕ) → or_else (or_else a b) c ≡ or_else a (or_else b c)
or_else-or_else none b c = refl
or_else-or_else (some a) b c = refl

-- The last of the callbacks that the operations name.
unfoldable pub last_of : (Op → Option ℕ) → List Op → Option ℕ
last_of pick [] = none
last_of pick (op ∷ ops) = or_else (last_of pick ops) (pick op)

-- A client with other callbacks, where there are some.
abbrev updated : Option ℕ → Option ℕ → Option ℕ → AsyncClientImpl → AsyncClientImpl
updated connected_cb read_cb write_cb impl = record impl {
  conn_cb = or_else connected_cb impl.conn_cb;
  read_cb = or_else read_cb impl.read_cb;
  write_cb = or_else write_cb impl.write_cb;
}

step-updated :
    (op : Op) (c : AsyncClient)
    → (step op c).impl ≡ updated (connected op) (reading op) (writing op) c.impl
unfolding step
step-updated (registers_connected cb) c = refl
step-updated (registers_read cb) c = refl
step-updated (registers_write cb) c = refl
step-updated connects c = refl

steps-updated :
    (ops : List Op) (c : AsyncClient)
    → (steps ops c).impl
      ≡ updated (last_of connected ops) (last_of reading ops) (last_of writing ops) c.impl
unfolding steps last_of
steps-updated [] c = refl
steps-updated (op ∷ ops) c =
    steps-updated ops (step op c)
    ∙ ap (updated (last_of connected ops) (last_of reading ops) (last_of writing ops))
        (step-updated op c)
    ∙ rw
        (
          or_else-or_else (last_of connected ops) (connected op) c.impl.conn_cb,
          or_else-or_else (last_of reading ops) (reading op) c.impl.read_cb,
          or_else-or_else (last_of writing ops) (writing op) c.impl.write_cb,
        )
        refl

or_else-none : (a : Option ℕ) → or_else a none ≡ a
or_else-none none = refl
or_else-none (some a) = refl

-- Whatever operations a new client has taken, it has the address and port that it was made with and,
-- of each kind, the callback that was registered last: a `connect` changes none of them.
pub steps-registered :
    (ip : Text) (port : ℕ) (ops : List Op)
    → (steps ops (new_async_client ip port)).impl ≡ record {
      server_ip = ip;
      server_port = port;
      conn_cb = last_of connected ops;
      read_cb = last_of reading ops;
      write_cb = last_of writing ops;
    }
steps-registered ip port ops =
    steps-updated ops (new_async_client ip port)
    ∙ rw
        (
          or_else-none (last_of connected ops),
          or_else-none (last_of reading ops),
          or_else-none (last_of writing ops),
        )
        refl
