-- ===== src/Connection/Tests.antt =====
-- Tests and examples for src/connection.rs.
use tinyproxy_rust.Prelude.{true, arith, ◌+◌, ◌≡◌, refl, [], ◌∷◌, All}
use tinyproxy_rust.Prelude.Results.{err}
use tinyproxy_rust.Std.Text.{codes, byte_len, equal}
use tinyproxy_rust.Std.Net.{v4, SocketAddr}
use tinyproxy_rust.Std.Utf8.{encode}
use tinyproxy_rust.Config.{Config, default}
use tinyproxy_rust.Stats
use tinyproxy_rust.Stats.{Stats}
use tinyproxy_rust.Tunnel.{got, wrote}
use tinyproxy_rust.Samples.{plain_unicode, sample_crates}
use tinyproxy_rust.Error.{timeout}
use tinyproxy_rust.Connection.{
  ConnectionHandler, new, handle, handle_request, error_body, error_content_length, auth_body,
}
use tinyproxy_rust.Connection.World.{World, connected}
use tinyproxy_rust.Connection.World.Effects.{OnlyTo}
use tinyproxy_rust.Http.{HttpRequest, find_end_of_headers}
use tinyproxy_rust.Connection.Reading.{rejected, read_request}
use tinyproxy_rust.Connection.Reading.Laws.{IsRead, read_request-IsRead}
use tinyproxy_rust.Connection.Admission.{IsAdmitted, handle-IsAdmitted}
use tinyproxy_rust.Connection.Settings.{handle_request_of_connect}
use tinyproxy_rust.Connection.Answers.{error_body-size}
use tinyproxy_rust.Connection.Conduct.{Handles, handle-Handles}

abbrev client : SocketAddr
client = record { ip = v4 0x7F000001; port = 4000 }

abbrev handler : ConnectionHandler
handler = new (λ name. err (codes "No such file")) client default

abbrev world : World
world = record {
  reads =
      (5, got (encode (codes "CONNECT a.com:443 HTT")))
      ∷ (600000, got (encode (codes "P/1.1\r\n\r\nhello")))
      ∷ [];
  writes = [];
  attempt = λ addr. connected;
  upstream_write = wrote;
  events = [];
  stats = Stats.new 0;
  now = 0;
  trace = [];
}

handle-IsAdmitted_example :
    All (OnlyTo (IsAdmitted handler world)) (handle (λ es. es) handler world).1.trace
handle-IsAdmitted_example = handle-IsAdmitted (λ es. es) handler world refl

read_request-IsRead_example :
    IsRead default.timeout [] world.reads
      (encode (codes "CONNECT a.com:443 HTTP/1.1\r\n\r\n"))
      (encode (codes "hello"))
unfolding read_request find_end_of_headers encode
read_request-IsRead_example =
    read_request-IsRead default.timeout world.reads
      (encode (codes "CONNECT a.com:443 HTTP/1.1\r\n\r\n")) (encode (codes "hello")) refl

error_body-size_example :
    byte_len (error_body 403 (codes "Forbidden")) ≡ error_content_length (codes "Forbidden") + 7
error_body-size_example = error_body-size 403 (codes "Forbidden") (omega arith) (omega arith)

auth_body_size : byte_len auth_body ≡ 68
unfolding byte_len
auth_body_size = refl

handle-Handles_example : Handles (λ es. es) handler (handle (λ es. es) handler world) world
handle-Handles_example = handle-Handles (λ es. es) handler world

abbrev anonymous_config : Config
anonymous_config = record default { anonymous = codes "cookie" ∷ []; x_tinyproxy = true }

abbrev connect_request : HttpRequest
connect_request = record {
  method = codes "CONNECT";
  uri = codes "a.com:443";
  version = codes "1.1";
  headers = [];
}

connects : equal connect_request.method (codes "CONNECT") ≡ true
unfolding equal
connects = refl

handle_request_of_connect_example :
    handle_request (λ es. es) handler connect_request (encode (codes "hello")) world
    ≡ handle_request (λ es. es) handler connect_request [] world
handle_request_of_connect_example =
    handle_request_of_connect (λ es. es) handler connect_request connects (encode (codes "hello"))
      [] world

-- Without patience, a client that sends nothing at once is given up.
slow_client :
    read_request 0 ((1, got (encode (codes "GET / HTTP/1.1\r\n\r\n"))) ∷ []) ≡ rejected timeout
unfolding read_request encode
slow_client = refl
