-- ===== src/AsyncClient/Tests.antt =====
-- A client to which two read callbacks are given.
use net_utils.Base.{◌≡◌, List, [], ◌∷◌, none, some}
use net_utils.Protocol.{codes}
use net_utils.AsyncClient
use net_utils.AsyncClient.{
  new_async_client, Op, registers_connected, registers_read, connects, steps,
}

abbrev ops : List Op
ops = registers_read 1 ∷ connects ∷ registers_connected 2 ∷ registers_read 3 ∷ connects ∷ []

steps-registered_test : (steps ops (new_async_client (codes "::1") 9001)).impl ≡ record {
  server_ip = codes "::1";
  server_port = 9001;
  conn_cb = some 2;
  read_cb = some 3;
  write_cb = none;
}
unfolding AsyncClient.Registered.last_of
steps-registered_test = AsyncClient.Registered.steps-registered (codes "::1") 9001 ops
