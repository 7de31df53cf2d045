-- ===== src/Http.antt =====
-- src/utils.rs and the text functions of src/connection.rs: requests, their parser, and the request
-- that is sent upstream.
pub mod Names
pub mod Parsed
pub mod Rejected
pub mod Framing
pub mod RoundTrip
mod Tests
use tinyproxy_rust.Prelude.{
  ℕ, zero, suc, ◌+◌, Bool, true, false, ◌&&◌, ◌||◌, not, Option, none, some, List, [], ◌∷◌, ◌++◌,
  is_empty, all, leb, ltb, ◌==◌, if◌then◌else◌,
}
use tinyproxy_rust.Prelude.Results.{Result, ok, err}
use tinyproxy_rust.Std.Text.{
  Str, codes, trim, split, split_once, split_whitespace, strip_prefix, starts_with,
}
use tinyproxy_rust.Std.Text.Lines.{lines}
use tinyproxy_rust.Std.Text.Case.{Unicode, to_lowercase}
use tinyproxy_rust.Std.HashMap.{insert}
use tinyproxy_rust.Std.Utf8.{Bytes, encode, from_utf8_lossy}
use tinyproxy_rust.Std.Number.{parse_uint, u16_max}
use tinyproxy_rust.Error.{ProxyError, invalid_request, ProxyResult}

pub record HttpRequest : Type 0 where
  pub method : Str
  pub uri : Str
  pub version : Str
  pub headers : List (Str × Str)

abbrev pub is_colon : ℕ → Bool
is_colon c = c == b':'

-- `strip_prefix("HTTP/").unwrap_or("1.1")`.
parse_version : Str → Str
parse_version third = elim (strip_prefix (codes "HTTP/") third) [
  | some version ↦ version
  | none ↦ codes "1.1"
]

module _ ⦃u : Unicode⦄ where
  -- A line with no colon is passed over.
  add_header : List (Str × Str) → Str → List (Str × Str)
  add_header headers line = elim (split_once is_colon line) [
    | none ↦ headers
    | some (name, value) ↦ insert (to_lowercase (trim name)) (trim value) headers
  ]

  -- The loop over the header lines, which the first empty line ends.
  parse_headers : List (Str × Str) → List Str → List (Str × Str)
  parse_headers headers [] = headers
  parse_headers headers (line ∷ rest) =
      let more = parse_headers (add_header headers line) rest in
      if is_empty line then headers else more

  pub parse_parts : List Str → List Str → ProxyResult HttpRequest
  parse_parts (method ∷ uri ∷ version ∷ []) rest = ok (record {
    method = method;
    uri = uri;
    version = parse_version version;
    headers = parse_headers [] rest;
  })
  parse_parts _ rest = err (invalid_request (codes "Invalid request line format"))

  pub parse_lines : List Str → ProxyResult HttpRequest
  parse_lines [] = err (invalid_request (codes "Empty request"))
  parse_lines (first ∷ rest) = parse_parts (split_whitespace first) rest

  unfoldable pub parse_http_request : Bytes → ProxyResult HttpRequest
  unfolding parse_lines parse_parts parse_headers add_header parse_version
  parse_http_request data_bytes = parse_lines (lines (from_utf8_lossy data_bytes))

-- `reconstruct_http_request`. The headers stand in the order in which the map is walked, `es`.
header_line : Str → Str → Str
header_line name value = name ++ (codes ": " ++ (value ++ codes "\r\n"))

header_lines : List (Str × Str) → Str
unfolding header_line
header_lines [] = []
header_lines ((name, value) ∷ es) = header_line name value ++ header_lines es

unfoldable pub is_absolute : Str → Bool
unfolding starts_with
is_absolute uri = starts_with (codes "http://") uri || starts_with (codes "https://") uri

uri_to_use : HttpRequest → Str → Str
unfolding is_absolute
uri_to_use request target_uri = if is_absolute target_uri then request.uri else target_uri

request_line : HttpRequest → Str → Str
unfolding uri_to_use
request_line request target_uri =
    request.method
    ++ (codes " "
        ++ (uri_to_use request target_uri ++ (codes " HTTP/" ++ (request.version ++ codes "\r\n"))))

unfoldable pub reconstruct_http_request : HttpRequest → Str → List (Str × Str) → Bytes
unfolding request_line header_lines
reconstruct_http_request request target_uri es =
    encode (request_line request target_uri ++ (header_lines es ++ codes "\r\n"))

-- `find_end_of_headers`: the first place of a blank line's end, from `i` on.
four_from : Bytes → Bool
four_from (a ∷ b ∷ c ∷ d ∷ bs) = a == b'\r' && (b == b'\n' && (c == b'\r' && d == b'\n'))
four_from bs = false

find_from : ℕ → Bytes → Option ℕ
find_from i [] = none
find_from i (b ∷ bs) =
    let later = find_from (suc i) bs in if four_from (b ∷ bs) then some i else later

unfoldable pub find_end_of_headers : Bytes → Option ℕ
unfolding find_from four_from
find_end_of_headers buffer = find_from 0 buffer

unfoldable pub host_port_of : Str → List Str → ProxyResult (Str × ℕ)
host_port_of uri (host ∷ []) = ok (host, 80)
host_port_of uri (host ∷ port ∷ []) = elim (parse_uint u16_max port) [
  | some n ↦ ok (host, n)
  | none ↦ err (invalid_request (codes "Invalid port: " ++ port))
]
host_port_of uri _ = err (invalid_request (codes "Invalid host:port format: " ++ uri))

unfoldable pub parse_host_port : Str → ProxyResult (Str × ℕ)
unfolding host_port_of
parse_host_port uri = host_port_of uri (split is_colon uri)
