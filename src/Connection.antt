-- ===== src/Connection.antt =====
-- src/connection.rs: the handler of one client connection. What the handler meets (the bytes that
-- arrive, the outcome of writes and of the connection attempt, the events of the tunnel) is given with
-- the world; what it does to the outside is appended to a trace.
pub mod World
pub mod Reading
pub mod Upstream
pub mod Admission
pub mod Conduct
pub mod Settings
pub mod Answers
mod Tests
use tinyproxy_rust.Prelude.{
  ℕ, ◌+◌, ◌%◌, ◌^◌, Bool, true, false, ◌||◌, not, Option, none, some, List, [], ◌∷◌, ◌++◌, any,
  ◌==◌, length, if◌then◌else◌,
}
use tinyproxy_rust.Prelude.Results.{Result, ok, err}
use tinyproxy_rust.Std.Text.{Str, codes, byte_len, equal, contains}
use tinyproxy_rust.Std.Text.Case.{Unicode}
use tinyproxy_rust.Std.HashMap.{get}
use tinyproxy_rust.Std.Net.{SocketAddr}
use tinyproxy_rust.Std.Net.Display.{ip_to_string}
use tinyproxy_rust.Stats.Page.{to_html}
use tinyproxy_rust.Std.Number.{print_uint}
use tinyproxy_rust.Std.Utf8.{Bytes, encode}
use tinyproxy_rust.Config.{Config, BasicAuthConfig}
use tinyproxy_rust.Error.{
  ProxyError, authentication_failed, access_denied, invalid_request, filter_blocked, ProxyResult,
}
use tinyproxy_rust.External.{Crates}
use tinyproxy_rust.Acl
use tinyproxy_rust.Acl.{AccessControl}
use tinyproxy_rust.Auth
use tinyproxy_rust.Auth.{Authenticator}
use tinyproxy_rust.Filter
use tinyproxy_rust.Filter.{Filter, FilterFile}
use tinyproxy_rust.Http.{HttpRequest, parse_http_request, parse_host_port}
use tinyproxy_rust.Connection.World.{
  Exec, pure, raise, lift, write_client, connect, count_request, current_stats, current_time, ◌>>=◌,
  ◌>>◌,
}
use tinyproxy_rust.Connection.Reading.{closed, complete, rejected, read_request}
use tinyproxy_rust.Connection.Upstream.{resolve_target, address, relay, send_upstream}

-- The parts of the handler that do not change while it runs.
pub record ConnectionHandler : Type 0 where
  pub client_addr : SocketAddr
  pub config : Config
  pub acl : AccessControl
  pub auth : Authenticator
  pub filter : Filter

-- `files` opens the filter file by its name.
unfoldable pub new :
    ⦃u : Unicode⦄ → ⦃x : Crates⦄ → (Str → FilterFile) → SocketAddr → Config → ConnectionHandler
new files client_addr config = record {
  client_addr = client_addr;
  config = config;
  acl = Acl.new config;
  auth = Auth.new config;
  filter = Filter.new files config;
}

-- The text of `send_error_response`; its Content-Length is an approximation.
unfoldable pub error_body : ℕ → Str → Str
error_body status_code reason =
    codes "<html><body><h1>"
    ++ (print_uint status_code ++ (codes " " ++ (reason ++ codes "</h1></body></html>")))

pub error_content_length : Str → ℕ
error_content_length reason = byte_len reason + 32

pub error_response : ℕ → Str → Str
unfolding error_body error_content_length
error_response status_code reason =
    codes "HTTP/1.1 "
    ++ (print_uint status_code
        ++ (codes " "
            ++ (reason
                ++ (codes "\r\nContent-Type: text/html\r\nContent-Length: "
                    ++ (print_uint (error_content_length reason)
                        ++ (codes "\r\nConnection: close\r\n\r\n"
                            ++ error_body status_code reason))))))

abbrev pub auth_body : Str
auth_body = codes "<html><body><h1>407 Proxy Authentication Required</h1></body></html>"

abbrev pub auth_response : Str
auth_response =
    codes
      "HTTP/1.1 407 Proxy Authentication Required\r\nProxy-Authenticate: Basic realm=\"Tinyproxy\"\r\nContent-Type: text/html\r\nContent-Length: 72\r\nConnection: close\r\n\r\n"
    ++ auth_body

abbrev pub established : Str
established = codes "HTTP/1.1 200 Connection established\r\n\r\n"

send_error_response : ℕ → Str → Exec (Unit {0})
send_error_response status_code reason = write_client (encode (error_response status_code reason))

send_proxy_auth_required : Exec (Unit {0})
send_proxy_auth_required = write_client (encode auth_response)

abbrev pub contains_port : List ℕ → ℕ → Bool
contains_port [] port = false
contains_port (p ∷ ps) port = p == port || contains_port ps port

abbrev pub http_methods : List Str
http_methods =
    codes "GET"
    ∷ codes "POST"
    ∷ codes "PUT"
    ∷ codes "DELETE"
    ∷ codes "HEAD"
    ∷ codes "OPTIONS"
    ∷ codes "PATCH"
    ∷ []

-- `headers.get("host").unwrap_or(&request.uri)`.
host_or_uri : HttpRequest → Str
host_or_uri request = elim (get (codes "host") request.headers) [
  | some host ↦ host
  | none ↦ request.uri
]

pub asks_for_stats : Option Str → HttpRequest → Bool
unfolding host_or_uri
asks_for_stats none request = false
asks_for_stats (some stat_host) request = contains stat_host (host_or_uri request)

-- `walk` is the order in which a map of headers is walked.
module _ ⦃u : Unicode⦄ ⦃x : Crates⦄ (walk : List (Str × Str) → List (Str × Str))
    (h : ConnectionHandler) where
  open h use {client_addr, config, acl, auth, filter}

  connect_target : Str × ℕ → Exec (Unit {0})
  connect_target (host, port) =
      if contains_port config.connect_ports port
      then (do connect (address host port); write_client (encode established); relay)
      else (do
        send_error_response 403 (codes "Port not allowed")
        raise (
            access_denied
              (codes "CONNECT to port " ++ (print_uint port ++ codes " is not allowed"))))

  handle_connect_request : HttpRequest → Exec (Unit {0})
  unfolding connect_target
  handle_connect_request request = do
    target ← lift (parse_host_port request.uri)
    connect_target target

  handle_http_request : HttpRequest → Bytes → Exec (Unit {0})
  handle_http_request request remaining_data = do
    target ← lift (resolve_target request)
    send_upstream request remaining_data (walk request.headers) target

  stats_response : Str → Str
  stats_response html =
      codes "HTTP/1.1 200 OK\r\nContent-Type: text/html; charset=utf-8\r\nContent-Length: "
      ++ (print_uint (byte_len html)
          ++ (codes "\r\nConnection: close\r\nCache-Control: no-cache\r\n\r\n" ++ html))

  handle_stats_request : Exec (Unit {0})
  unfolding stats_response
  handle_stats_request = do
    stats ← current_stats
    now ← current_time
    write_client (encode (stats_response (to_html now stats)))

  by_method : HttpRequest → Bytes → Exec (Unit {0})
  unfolding handle_connect_request handle_http_request send_error_response
  by_method request remaining_data =
      if equal request.method (codes "CONNECT")
      then handle_connect_request request
      else if any (equal request.method) http_methods
      then handle_http_request request remaining_data
      else (do
        send_error_response 405 (codes "Method Not Allowed")
        raise (invalid_request (codes "Unsupported method: " ++ request.method)))

  filtered : HttpRequest → Bytes → Exec (Unit {0})
  unfolding by_method
  filtered request remaining_data =
      if config.filter_urls
      then (do
        allowed ← lift (Filter.is_allowed filter request.uri)
        if allowed then by_method request remaining_data else (do
          send_error_response 403 (codes "Forbidden by filter")
          raise (filter_blocked request.uri)))
      else by_method request remaining_data

  after_auth : HttpRequest → Bytes → Exec (Unit {0})
  unfolding asks_for_stats handle_stats_request filtered
  after_auth request remaining_data =
      if asks_for_stats config.stat_host request
      then handle_stats_request
      else filtered request remaining_data

  authenticated : Option BasicAuthConfig → HttpRequest → Bytes → Exec (Unit {0})
  unfolding after_auth send_proxy_auth_required
  authenticated none request remaining_data = after_auth request remaining_data
  authenticated (some _) request remaining_data = do
    allowed ← lift (Auth.authenticate auth request)
    if allowed
        then after_auth request remaining_data
        else (do send_proxy_auth_required; raise authentication_failed)

  pub handle_request : HttpRequest → Bytes → Exec (Unit {0})
  unfolding authenticated
  handle_request request remaining_data = do
    count_request
    authenticated config.basic_auth request remaining_data

  after_reading : Reading.Reading → Exec (Unit {0})
  unfolding handle_request
  after_reading closed = pure tt
  after_reading (rejected e) = raise e
  after_reading (complete head remaining_data) = do
    request ← lift (parse_http_request head)
    handle_request request remaining_data

  unfoldable pub handle : Exec (Unit {0})
  unfolding after_reading
  handle w =
      if Acl.is_allowed acl client_addr
      then after_reading (read_request config.timeout w.reads) w
      else (do
        send_error_response 403 (codes "Forbidden")
        raise (
            access_denied
              (codes "IP " ++ (ip_to_string client_addr.ip ++ codes " is not allowed"))))
          w
