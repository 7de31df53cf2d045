-- ===== src/Connection/Settings.antt =====
-- What of the configuration, and of what the client sent, the handler of src/connection.rs depends on.
use tinyproxy_rust.Prelude.{◌≡◌, refl, List, true, Option, none, some}
use tinyproxy_rust.Std.Text.{Str, codes, equal}
use tinyproxy_rust.Std.Text.Case.{Unicode}
use tinyproxy_rust.Std.Utf8.{Bytes}
use tinyproxy_rust.Config.{Config, BasicAuthConfig, default}
use tinyproxy_rust.External.{Crates}
use tinyproxy_rust.Acl
use tinyproxy_rust.Filter
use tinyproxy_rust.Http.{HttpRequest}
use tinyproxy_rust.Connection.{
  ConnectionHandler, by_method, filtered, after_auth, authenticated, handle_request,
}
use tinyproxy_rust.Connection.World.{World}

-- The configuration that keeps the settings that the handler reads, and has the default for all others.
abbrev pub read_settings : Config → Config
read_settings c = record default {
  allow = c.allow;
  deny = c.deny;
  basic_auth = c.basic_auth;
  filter_file = c.filter_file;
  filter_urls = c.filter_urls;
  filter_extended = c.filter_extended;
  filter_casesensitive = c.filter_casesensitive;
  connect_ports = c.connect_ports;
  stat_host = c.stat_host;
  timeout = c.timeout;
  buffer_size = c.buffer_size;
}

module _ ⦃u : Unicode⦄ ⦃x : Crates⦄ (walk : List (Str × Str) → List (Str × Str)) where
  module _ (h : ConnectionHandler) (request : HttpRequest)
      (connects : equal request.method (codes "CONNECT") ≡ true) (rest other : Bytes) where
    open h use {config, auth, filter}

    by_method_of_connect : by_method walk h request rest ≡ by_method walk h request other
    unfolding by_method
    by_method_of_connect = rw (connects, by_method) refl

    filtered_of_connect : filtered walk h request rest ≡ filtered walk h request other
    unfolding filtered
    filtered_of_connect = rw (by_method_of_connect, filtered) refl

    after_auth_of_connect : after_auth walk h request rest ≡ after_auth walk h request other
    unfolding after_auth
    after_auth_of_connect = rw (filtered_of_connect, after_auth) refl

    authenticated_of_connect :
        (c : Option BasicAuthConfig)
        → authenticated walk h c request rest ≡ authenticated walk h c request other
    unfolding authenticated
    authenticated_of_connect none = after_auth_of_connect
    authenticated_of_connect (some c) = rw (after_auth_of_connect, authenticated) refl

    -- The bytes that were read behind the head of a CONNECT request make no difference: they go
    -- nowhere.
    pub handle_request_of_connect :
        (w : World) → handle_request walk h request rest w ≡ handle_request walk h request other w
    unfolding handle_request
    handle_request_of_connect w =
        rw (authenticated_of_connect config.basic_auth, handle_request) refl
