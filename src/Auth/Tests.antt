-- ===== src/Auth/Tests.antt =====
-- An example for src/auth.rs.
use tinyproxy_rust.Prelude.{◌≡◌, ◌↔◌, refl, true, some, [], ◌∷◌}
use tinyproxy_rust.Prelude.Results.{ok}
use tinyproxy_rust.Std.Text.{Str, codes}
use tinyproxy_rust.Std.HashMap.{get}
use tinyproxy_rust.Samples.{sample_crates}
use tinyproxy_rust.Config.{BasicAuthConfig}
use tinyproxy_rust.Http.{HttpRequest}
use tinyproxy_rust.Auth.{Authenticator, authenticate}
use tinyproxy_rust.Auth.Laws.{Carries, authenticate_iff}

abbrev account : BasicAuthConfig
account = record { username = codes "user"; password = codes "pass"; realm = codes "Tinyproxy" }

abbrev request : HttpRequest
request = record {
  method = codes "GET";
  uri = codes "http://a.com/";
  version = codes "1.1";
  headers = (codes "proxy-authorization", codes "Basic dXNlcjpwYXNz") ∷ [];
}

abbrev guarded : Authenticator
guarded = record { auth_config = some account }

authenticate_iff_example : (authenticate guarded request ≡ ok true) ↔ (
    (header : Str) × (get (codes "proxy-authorization") request.headers ≡ some header)
    × Carries (codes "user") (codes "pass") header)
authenticate_iff_example =
    authenticate_iff guarded account request refl (refl, (refl, (refl, (refl, tt))))
