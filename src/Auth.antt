-- ===== src/Auth.antt =====
-- src/auth.rs: HTTP Basic authentication against the one account of the configuration.
pub mod Laws
mod Tests
use tinyproxy_rust.Prelude.{Bool, true, false, ◌&&◌, Option, none, some}
use tinyproxy_rust.Prelude.Results.{ok, ok_or, ◌>>=◌}
use tinyproxy_rust.Std.Text.{Str, codes, equal, split_once, strip_prefix}
use tinyproxy_rust.Std.HashMap.{get}
use tinyproxy_rust.Std.Utf8.{from_utf8}
use tinyproxy_rust.Config.{Config, BasicAuthConfig}
use tinyproxy_rust.Error.{authentication_failed, ProxyResult}
use tinyproxy_rust.External.{Crates}
use tinyproxy_rust.Http.{HttpRequest, is_colon}

pub record Authenticator : Type 0 where
  pub auth_config : Option BasicAuthConfig

abbrev pub new : Config → Authenticator
new config = record { auth_config = config.basic_auth }

abbrev pub is_enabled : Authenticator → Bool
is_enabled auth = elim auth.auth_config [ none ↦ false | some c ↦ true ]

unfoldable pub get_realm : Authenticator → Str
get_realm auth = elim auth.auth_config [ none ↦ codes "Tinyproxy" | some c ↦ c.realm ]

module _ ⦃x : Crates⦄ where
  -- The decoded credentials, split at the first colon.
  unfoldable pub read_credentials : Str → ProxyResult (Str × Str)
  read_credentials header = do
    encoded ← ok_or (strip_prefix (codes "Basic ") header) authentication_failed
    decoded ← ok_or (x.base64_decode encoded) authentication_failed
    credentials ← ok_or (from_utf8 decoded) authentication_failed
    ok_or (split_once is_colon credentials) authentication_failed

  check_header : BasicAuthConfig → Str → ProxyResult Bool
  check_header c header = do
    (username, password) ← read_credentials header
    ok (equal username c.username && equal password c.password)

  authenticate_with : Option BasicAuthConfig → HttpRequest → ProxyResult Bool
  unfolding check_header
  authenticate_with none request = ok true
  authenticate_with (some c) request = elim (get (codes "proxy-authorization") request.headers) [
    | none ↦ ok false
    | some header ↦ check_header c header
  ]

  unfoldable pub authenticate : Authenticator → HttpRequest → ProxyResult Bool
  unfolding authenticate_with
  authenticate auth request = authenticate_with auth.auth_config request
