-- ===== src/Http/Tests.antt =====
-- Tests and examples for the requests of src/utils.rs and src/connection.rs.
use tinyproxy_rust.Prelude.{ℕ, ◌<◌, ◌↔◌, ◌≡◌, refl, some, List, [], ◌∷◌, arith}
use tinyproxy_rust.Prelude.Results.{ok}
use tinyproxy_rust.Std.Text.{
  Str, codes, trim, is_whitespace, split, split_once, split_whitespace, strip_prefix, equal,
  starts_with,
}
use tinyproxy_rust.Std.Text.Laws.{equal_iff}
use tinyproxy_rust.Std.Text.Lines.{lines}
use tinyproxy_rust.Std.Text.Case.{to_lowercase}
use tinyproxy_rust.Std.HashMap.{get, insert, Iterates}
use tinyproxy_rust.Std.Utf8.{Bytes, encode, from_utf8_lossy}
use tinyproxy_rust.Samples.{plain_unicode, plain_laws}
use tinyproxy_rust.Http.{
  HttpRequest, find_end_of_headers, parse_http_request, reconstruct_http_request, is_absolute,
}
use tinyproxy_rust.Http.Framing.{EndsAt, find_end_of_headers_iff}
use tinyproxy_rust.Http.Parsed.{IsRequest, parse_http_request-IsRequest}
use tinyproxy_rust.Http.Rejected.{HasRequestLine, parse_http_request_iff}
use tinyproxy_rust.Http.RoundTrip.{reconstruct_round_trip}

abbrev data_bytes : Bytes
data_bytes = encode (
    codes
      "GET http://a.com/ HTTP/1.1\r\nHost: a.com\r\nX-Note:  hi  there \r\nbogus\r\n\r\nHost: b\r\n")

abbrev request : HttpRequest
request = record {
  method = codes "GET";
  uri = codes "http://a.com/";
  version = codes "1.1";
  headers = (codes "host", codes "a.com") ∷ (codes "x-note", codes "hi  there") ∷ [];
}

abbrev other_order : List (Str × Str)
other_order = (codes "x-note", codes "hi  there") ∷ (codes "host", codes "a.com") ∷ []

request_parsed : parse_http_request data_bytes ≡ ok request
unfolding parse_http_request encode from_utf8_lossy lines split split_whitespace is_whitespace
    split_once strip_prefix trim to_lowercase insert equal
request_parsed = refl

parse_http_request-IsRequest_example : IsRequest request
parse_http_request-IsRequest_example =
    parse_http_request-IsRequest plain_laws data_bytes request request_parsed

other_order-Iterates : Iterates other_order request.headers
unfolding get equal
other_order-Iterates = record {
  distinct = (refl, (refl, tt));
  same = λ k. ground (arith, equal_iff (codes "host") k, equal_iff (codes "x-note") k);
}

reconstruct_round_trip_example :
    (r' : HttpRequest) × (parse_http_request
        (reconstruct_http_request request request.uri other_order)
      ≡ ok r')
    × (r'.method ≡ request.method)
    × (r'.uri ≡ request.uri)
    × (r'.version ≡ request.version)
    × ((k : Str) → get k r'.headers ≡ get k request.headers)
reconstruct_round_trip_example =
    reconstruct_round_trip plain_laws data_bytes request request.uri other_order request_parsed
      (unfold is_absolute starts_with in refl) other_order-Iterates

abbrev short_head : Bytes
short_head = b'a' ∷ b'\r' ∷ b'\n' ∷ b'\r' ∷ b'\n' ∷ b'b' ∷ []

find_end_of_headers_iff_example :
    (find_end_of_headers short_head ≡ some 1)
    ↔ (EndsAt short_head 1 × ((j : ℕ) → j < 1 → ¬ EndsAt short_head j))
find_end_of_headers_iff_example = find_end_of_headers_iff short_head 1

parse_http_request_iff_example :
    ((r : HttpRequest) × (parse_http_request data_bytes ≡ ok r))
    ↔ HasRequestLine (lines (from_utf8_lossy data_bytes))
parse_http_request_iff_example = parse_http_request_iff data_bytes
