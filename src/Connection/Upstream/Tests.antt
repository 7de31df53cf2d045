-- ===== src/Connection/Upstream/Tests.antt =====
-- Examples for the targets of src/connection.rs.
use tinyproxy_rust.Prelude.{◌≡◌, refl, [], ◌∷◌, arith}
use tinyproxy_rust.Prelude.Results.{ok}
use tinyproxy_rust.Std.Text.{
  Str, codes, trim, is_whitespace, split, split_once, split_whitespace, strip_prefix, equal,
  starts_with, rsplit_once,
}
use tinyproxy_rust.Std.Text.Lines.{lines}
use tinyproxy_rust.Std.Text.Case.{to_lowercase}
use tinyproxy_rust.Std.HashMap.{get, insert, Iterates}
use tinyproxy_rust.Std.Number.{parse_uint, print_uint}
use tinyproxy_rust.Std.Utf8.{Bytes, encode, from_utf8_lossy}
use tinyproxy_rust.Samples.{plain_unicode, plain_laws, sample_crates}
use tinyproxy_rust.Http.{
  HttpRequest, parse_http_request, parse_host_port, reconstruct_http_request, is_absolute,
}
use tinyproxy_rust.Connection.Upstream.{Target, resolve_target, address}
use tinyproxy_rust.Connection.Upstream.Address.{parse_host_port-address}
use tinyproxy_rust.Connection.Upstream.Forwarding.{forwarded_round_trip}

abbrev relative_bytes : Bytes
relative_bytes = encode (codes "GET /x HTTP/1.1\r\nHost: b.org:8080\r\n\r\n")

abbrev relative : HttpRequest
relative = record {
  method = codes "GET";
  uri = codes "/x";
  version = codes "1.1";
  headers = (codes "host", codes "b.org:8080") ∷ [];
}

abbrev target : Target
target = record { host = codes "b.org"; port = 8080; target_uri = codes "http://b.org:8080/x" }

relative_parsed : parse_http_request relative_bytes ≡ ok relative
unfolding parse_http_request encode from_utf8_lossy lines split split_whitespace is_whitespace
    split_once strip_prefix trim to_lowercase insert equal
relative_parsed = refl

relative_resolved : resolve_target relative ≡ ok target
unfolding resolve_target is_absolute starts_with get equal rsplit_once parse_uint print_uint
relative_resolved = refl

headers-Iterates : Iterates relative.headers relative.headers
unfolding get equal
headers-Iterates = record { distinct = (refl, tt); same = λ k. refl }

forwarded_round_trip_example :
    (r : HttpRequest) × (parse_http_request
        (reconstruct_http_request relative (codes "http://b.org:8080/x") relative.headers)
      ≡ ok r)
    × (r.method ≡ relative.method)
    × (r.uri ≡ relative.uri)
    × (r.version ≡ relative.version)
    × ((k : Str) → get k r.headers ≡ get k relative.headers)
forwarded_round_trip_example =
    forwarded_round_trip plain_laws relative_bytes relative target relative.headers relative_parsed
      relative_resolved headers-Iterates

parse_host_port-address_example :
    parse_host_port (address (codes "a.com") 443) ≡ ok (codes "a.com", 443)
parse_host_port-address_example =
    parse_host_port-address (codes "a.com") 443 (refl, (refl, (refl, (refl, (refl, tt)))))
      (omega arith)
