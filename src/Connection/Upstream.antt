-- ===== src/Connection/Upstream.antt =====
-- The target of a plain HTTP request, and the relay to the server, of src/connection.rs.
pub mod Effects
pub mod Address
pub mod Forwarding
mod Tests
use tinyproxy_rust.Prelude.{
  ℕ, Bool, true, false, Option, none, some, List, [], ◌∷◌, ◌++◌, ◌==◌, if◌then◌else◌,
}
use tinyproxy_rust.Prelude.Results
use tinyproxy_rust.Prelude.Results.{Result, ok, err, ok_or}
use tinyproxy_rust.Std.Text.{Str, codes, equal, rsplit_once}
use tinyproxy_rust.Std.HashMap.{get}
use tinyproxy_rust.Std.Number.{parse_uint, print_uint, u16_max}
use tinyproxy_rust.Std.Utf8.{Bytes}
use tinyproxy_rust.Error.{ProxyError, invalid_request, ProxyResult}
use tinyproxy_rust.External.{Url, Crates}
use tinyproxy_rust.Http.{HttpRequest, is_colon, is_absolute, reconstruct_http_request}
use tinyproxy_rust.Connection.World.{
  Exec, connect, write_upstream, run_tunnel, count_transferred, ◌>>=◌, ◌>>◌,
}

pub record Target : Type 0 where
  pub host : Str
  pub port : ℕ
  pub target_uri : Str

-- An absolute target: host and port of the URL, with the scheme's port if it names none.
target_of_url : Str → Result Str Url → ProxyResult Target
target_of_url uri (err e) = err (invalid_request (codes "Invalid URL: " ++ e))
target_of_url uri (ok url) = elim url.host_str [
  | none ↦ err (invalid_request (codes "No host in URL"))
  | some host ↦ ok (record {
    host = host;
    port = elim url.port [
      | some port ↦ port
      | none ↦ if equal url.scheme (codes "https") then 443 else 80
    ];
    target_uri = uri;
  })
]

-- `rfind(':')` on the Host header.
split_host : Str → Option (Str × Str) → ProxyResult (Str × ℕ)
split_host host none = ok (host, 80)
split_host host (some (hostname, port_str)) = elim (parse_uint u16_max port_str) [
  | some port ↦ ok (hostname, port)
  | none ↦ err (invalid_request (codes "Invalid port in Host header: " ++ port_str))
]

target_of_host : Str → ProxyResult (Str × ℕ) → ProxyResult Target
target_of_host uri (err e) = err e
target_of_host uri (ok (hostname, port)) = ok (record {
  host = hostname;
  port = port;
  target_uri = codes "http://" ++ (hostname ++ (codes ":" ++ (print_uint port ++ uri)));
})

-- A relative target goes to the server that the Host header names.
target_of_header : Str → Option Str → ProxyResult Target
unfolding target_of_host split_host
target_of_header uri none = err (invalid_request (codes "No Host header for relative URL"))
target_of_header uri (some host) = target_of_host uri (split_host host (rsplit_once is_colon host))

module _ ⦃x : Crates⦄ where
  unfoldable pub resolve_target : HttpRequest → ProxyResult Target
  unfolding target_of_url target_of_header
  resolve_target request =
      if is_absolute request.uri
      then target_of_url request.uri (x.url_parse request.uri)
      else target_of_header request.uri (get (codes "host") request.headers)

abbrev pub address : Str → ℕ → Str
address host port = host ++ (codes ":" ++ print_uint port)

-- The tunnel, and its count.
unfoldable pub relay : Exec (Unit {0})
relay = do n ← run_tunnel; count_transferred n

-- The server is connected to, gets the request and what the client has sent behind it, and is then
-- relayed. `es` is the order of the headers.
unfoldable pub send_upstream : HttpRequest → Bytes → List (Str × Str) → Target → Exec (Unit {0})
unfolding relay
send_upstream request remaining_data es target = do
  connect (address target.host target.port)
  write_upstream (reconstruct_http_request request target.target_uri es ++ remaining_data)
  relay
