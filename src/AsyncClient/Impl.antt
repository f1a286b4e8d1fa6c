-- ===== src/AsyncClient/Impl.antt =====
-- `AsyncClientImpl` of src/NetUtils/async_client/AsyncClient.cpp. A callback is a function object, here
-- by number; `none` is the empty one.
use net_utils.Base.{ℕ, Option, none, some}
use net_utils.Os.{Text}

pub record AsyncClientImpl : Type 0 where
  pub server_ip : Text
  pub server_port : ℕ
  pub conn_cb : Option ℕ
  pub read_cb : Option ℕ
  pub write_cb : Option ℕ

abbrev pub new_async_client_impl : Text → ℕ → AsyncClientImpl
new_async_client_impl ip port = record {
  server_ip = ip;
  server_port = port;
  conn_cb = none;
  read_cb = none;
  write_cb = none;
}

abbrev pub register_connected_cb : ℕ → AsyncClientImpl → AsyncClientImpl
register_connected_cb cb impl = record impl { conn_cb = some cb }

abbrev pub register_read_cb : ℕ → AsyncClientImpl → AsyncClientImpl
register_read_cb cb impl = record impl { read_cb = some cb }

abbrev pub register_write_cb : ℕ → AsyncClientImpl → AsyncClientImpl
register_write_cb cb impl = record impl { write_cb = some cb }

-- Its body is empty.
abbrev pub connect : AsyncClientImpl → AsyncClientImpl
connect impl = impl
