-- ===== src/Connection/Upstream/Effects.antt =====
-- The relay of src/connection.rs connects to its target and to nothing else.
use tinyproxy_rust.Prelude.{List}
use tinyproxy_rust.Std.Text.{Str}
use tinyproxy_rust.Std.Utf8.{Bytes}
use tinyproxy_rust.Http.{HttpRequest}
use tinyproxy_rust.Connection.Upstream.{Target, address, relay, send_upstream}
use tinyproxy_rust.Connection.World.Effects.{Connects, Connects-connect, connect_rules}

module _ {G : Str → Type 0} where
  pub Connects-relay : Connects G relay
  unfolding relay
  Connects-relay = search connect_rules

  pub Connects-send_upstream :
      (request : HttpRequest) (remaining_data : Bytes) (es : List (Str × Str)) (target : Target)
      → G (address target.host target.port)
      → Connects G (send_upstream request remaining_data es target)
  unfolding send_upstream
  Connects-send_upstream request remaining_data es target g =
      search (connect_rules, Connects-connect, Connects-relay)
