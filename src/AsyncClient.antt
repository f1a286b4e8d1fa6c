-- ===== src/AsyncClient.antt =====
-- `AsyncClient` of src/NetUtils/async_client/AsyncClient.{h,cpp}: each operation is handed on to the
-- AsyncClientImpl.
pub mod Impl
pub mod Registered
mod Tests
use net_utils.Base.{ℕ, List, [], ◌∷◌}
use net_utils.Os.{Text}
use net_utils.AsyncClient.Impl
use net_utils.AsyncClient.Impl.{AsyncClientImpl, new_async_client_impl}

pub record AsyncClient : Type 0 where
  pub impl : AsyncClientImpl

-- An allocation that fails throws, and there is no client.
abbrev pub new_async_client : Text → ℕ → AsyncClient
new_async_client ip port = record { impl = new_async_client_impl ip port }

abbrev pub register_connected_cb : ℕ → AsyncClient → AsyncClient
register_connected_cb cb c = record { impl = Impl.register_connected_cb cb c.impl }

abbrev pub register_read_cb : ℕ → AsyncClient → AsyncClient
register_read_cb cb c = record { impl = Impl.register_read_cb cb c.impl }

abbrev pub register_write_cb : ℕ → AsyncClient → AsyncClient
register_write_cb cb c = record { impl = Impl.register_write_cb cb c.impl }

abbrev pub connect : AsyncClient → AsyncClient
connect c = record { impl = Impl.connect c.impl }

-- The public operations.
pub data Op : Type 0 where
  registers_connected registers_read registers_write : ℕ → Op
  connects : Op

pub step : Op → AsyncClient → AsyncClient
step (registers_connected cb) c = register_connected_cb cb c
step (registers_read cb) c = register_read_cb cb c
step (registers_write cb) c = register_write_cb cb c
step connects c = connect c

pub steps : List Op → AsyncClient → AsyncClient
steps [] c = c
steps (op ∷ ops) c = steps ops (step op c)
