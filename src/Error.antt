-- ===== src/Error.antt =====
-- src/error.rs: the errors of the proxy. The errors of the system and of TLS stand by their texts.
use tinyproxy_rust.Prelude.{ℕ, ◌++◌}
use tinyproxy_rust.Prelude.Results.{Result}
use tinyproxy_rust.Std.Text.{Str, codes}

pub data ProxyError : Type 0 where
  io : Str → ProxyError
  config : Str → ProxyError
  authentication_failed : ProxyError
  access_denied : Str → ProxyError
  invalid_request : Str → ProxyError
  invalid_response : Str → ProxyError
  timeout : ProxyError
  upstream : Str → ProxyError
  filter_blocked : Str → ProxyError
  tls : Str → ProxyError
  dns_resolution : Str → ProxyError
  protocol : Str → ProxyError
  resource_exhausted : Str → ProxyError
  internal : Str → ProxyError

abbrev pub ProxyResult {ℓ} : Type ℓ → Type ℓ
ProxyResult A = Result ProxyError A

unfoldable pub http_status_code : ProxyError → ℕ
http_status_code authentication_failed = 407
http_status_code (access_denied _) = 403
http_status_code (invalid_request _) = 400
http_status_code timeout = 408
http_status_code (filter_blocked _) = 403
http_status_code (dns_resolution _) = 502
http_status_code (upstream _) = 502
http_status_code (resource_exhausted _) = 503
http_status_code _ = 500

unfoldable pub error_message : ProxyError → Str
error_message authentication_failed = codes "Proxy authentication required"
error_message (access_denied msg) = codes "Access denied: " ++ msg
error_message (invalid_request msg) = codes "Bad request: " ++ msg
error_message timeout = codes "Request timeout"
error_message (filter_blocked msg) = codes "Request blocked by filter: " ++ msg
error_message (dns_resolution msg) = codes "DNS resolution failed: " ++ msg
error_message (upstream msg) = codes "Upstream server error: " ++ msg
error_message (resource_exhausted msg) = codes "Service temporarily unavailable: " ++ msg
error_message _ = codes "Internal server error"
