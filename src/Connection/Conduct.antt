-- ===== src/Connection/Conduct.antt =====
-- Every way in which a handler of src/connection.rs may end.
use tinyproxy_rust.Prelude.{
  ℕ, ◌+◌, ◌%◌, ◌^◌, ◌≡◌, refl, ap, sym, ◌∙◌, ◌⊎◌, inl, inr, if_intro, true, any, Option, none, some,
  List, ◌++◌,
}
use tinyproxy_rust.Prelude.Results.{ok, err}
use tinyproxy_rust.Std.Text.{Str, codes, equal}
use tinyproxy_rust.Std.Text.Case.{Unicode}
use tinyproxy_rust.Std.Utf8.{Bytes, encode}
use tinyproxy_rust.Stats.{Stats}
use tinyproxy_rust.Config.{BasicAuthConfig}
use tinyproxy_rust.Error.{ProxyError, ProxyResult}
use tinyproxy_rust.External.{Crates}
use tinyproxy_rust.Acl
use tinyproxy_rust.Auth
use tinyproxy_rust.Filter
use tinyproxy_rust.Http.{HttpRequest, parse_http_request, parse_host_port}
use tinyproxy_rust.Connection.{
  ConnectionHandler, contains_port, http_methods, connect_target, handle_connect_request,
  established, handle_http_request, handle_stats_request, by_method, filtered, asks_for_stats,
  after_auth, authenticated, handle_request, after_reading, handle, send_error_response,
  send_proxy_auth_required,
}
use tinyproxy_rust.Connection.World.{World, Effect, Status, lift, count_request, ◌>>=◌}
use tinyproxy_rust.Connection.World.Conduct.{
  Conforms, Conducts, Conducts-raise, Conducts-pure, Conducts-write_client, Conducts-refuse,
  Conducts-if, Conducts-bind_lift, Conducts-read_stats, Conducts-tunnel, Conducts-upstream,
}
use tinyproxy_rust.Connection.Reading.{Reading, closed, complete, rejected, read_request}
use tinyproxy_rust.Connection.Upstream.{Target, resolve_target, address, relay, send_upstream}

complete-inj : (a b c d : Bytes) → complete a c ≡ complete b d → a ≡ b
complete-inj a b c d e = cc e

result_ne : (e : ProxyError) (r : HttpRequest) → ¬ (err e ≡ ok r)
result_ne e r p = cc p

Conducts-send_upstream :
    (request : HttpRequest) (remaining_data : Bytes) (es : List (Str × Str)) (t : Target)
    (w : World)
    → Conducts (send_upstream request remaining_data es t) w
unfolding send_upstream relay
Conducts-send_upstream request remaining_data es t w = Conducts-upstream (address t.host t.port) _ w

module _ ⦃u : Unicode⦄ ⦃x : Crates⦄ (walk : List (Str × Str) → List (Str × Str))
    (h : ConnectionHandler) where
  open h use {client_addr, config, acl, auth, filter}

  Conducts-connect_target : (t : Str × ℕ) (w : World) → Conducts (connect_target walk h t) w
  unfolding connect_target relay send_error_response
  Conducts-connect_target (host, port) w =
      Conducts-if (contains_port config.connect_ports port) _ _ w
        (Conducts-tunnel (address host port) (encode established) w) (Conducts-refuse _ _ w)

  Conducts-by_method :
      (request : HttpRequest) (remaining_data : Bytes) (w : World)
      → Conducts (by_method walk h request remaining_data) w
  unfolding by_method handle_connect_request handle_http_request send_error_response
  Conducts-by_method request remaining_data w =
      Conducts-if (equal request.method (codes "CONNECT")) _ _ w
        (Conducts-bind_lift (parse_host_port request.uri) _ w (λ t. Conducts-connect_target t w))
        (Conducts-if (any (equal request.method) http_methods) _ _ w
          (Conducts-bind_lift (resolve_target request) _ w
            (λ t. Conducts-send_upstream request remaining_data (walk request.headers) t w))
          (Conducts-refuse _ _ w))

  Conducts-filtered :
      (request : HttpRequest) (remaining_data : Bytes) (w : World)
      → Conducts (filtered walk h request remaining_data) w
  unfolding filtered send_error_response
  Conducts-filtered request remaining_data w =
      Conducts-if config.filter_urls _ _ w
        (Conducts-bind_lift (Filter.is_allowed filter request.uri) _ w (λ allowed.
          Conducts-if allowed _ _ w (Conducts-by_method request remaining_data w)
            (Conducts-refuse _ _ w)))
        (Conducts-by_method request remaining_data w)

  Conducts-after_auth :
      (request : HttpRequest) (remaining_data : Bytes) (w : World)
      → Conducts (after_auth walk h request remaining_data) w
  unfolding after_auth handle_stats_request
  Conducts-after_auth request remaining_data w =
      Conducts-if (asks_for_stats config.stat_host request) _ _ w
        (Conducts-read_stats _ w (λ s n. Conducts-write_client _ w))
        (Conducts-filtered request remaining_data w)

  Conducts-authenticated :
      (c : Option BasicAuthConfig) (request : HttpRequest) (remaining_data : Bytes) (w : World)
      → Conducts (authenticated walk h c request remaining_data) w
  unfolding authenticated send_proxy_auth_required
  Conducts-authenticated none request remaining_data w =
      Conducts-after_auth request remaining_data w
  Conducts-authenticated (some c) request remaining_data w =
      Conducts-bind_lift (Auth.authenticate auth request) _ w (λ allowed.
        Conducts-if allowed _ _ w (Conducts-after_auth request remaining_data w)
          (Conducts-refuse _ _ w))

  -- One more request.
  abbrev pub counted : Stats → Stats
  counted s = record s { requests_processed = (s.requests_processed + 1) % 2 ^ 64 }

  -- The handler comes to a request: the client is admitted, and a whole head is read and parsed.
  abbrev pub HasRequest : World → Type 0
  HasRequest w =
      (Acl.is_allowed acl client_addr ≡ true)
      × ((head remaining : Bytes) × (request : HttpRequest) × (read_request config.timeout w.reads
            ≡ complete head remaining)
          × (parse_http_request head ≡ ok request))

  -- The end that a run from `w` comes to, with the counters `s` once a request is counted.
  abbrev pub Since : Status (Unit {0}) × World → World → Stats → Type 0
  Since end w s = (t : List Effect) × (end.1.trace ≡ w.trace ++ t) × Conforms end.0 s t end.1.stats

  Since-handle_request :
      (request : HttpRequest) (remaining_data : Bytes) (w : World)
      → Since (handle_request walk h request remaining_data w) w (counted w.stats)
  unfolding handle_request ◌>>=◌ count_request
  Since-handle_request request remaining_data w =
      Conducts-authenticated config.basic_auth request remaining_data
        (record w { stats = counted w.stats })

  -- What is counted: a request that was reached, and nothing else.
  abbrev pub Handles : Status (Unit {0}) × World → World → Type 0
  Handles end w =
      (s : Stats) × Since end w s
      × ((HasRequest w × (s ≡ counted w.stats)) ⊎ ((¬ HasRequest w) × (s ≡ w.stats)))

  Handles-parsed :
      (r : ProxyResult HttpRequest) (head remaining_data : Bytes) (w : World)
      → Acl.is_allowed acl client_addr ≡ true
      → read_request config.timeout w.reads ≡ complete head remaining_data
      → parse_http_request head ≡ r
      → Handles ((lift r >>= λ request. handle_request walk h request remaining_data) w) w
  unfolding ◌>>=◌
  Handles-parsed (ok request) head remaining_data w a read parsed = (
    counted w.stats,
    Since-handle_request request remaining_data w,
    inl ((a, (head, remaining_data, request, read, parsed)), refl),
  )
  Handles-parsed (err e) head remaining_data w a read parsed = (
    w.stats,
    Conducts-raise e w,
    inr (
      (λ (_, (head', _, request', read', parsed')).
          let same = complete-inj head head' _ _ (sym read ∙ read') in
          result_ne e request' (sym parsed ∙ (ap parse_http_request same ∙ parsed'))),
      refl,
    ),
  )

  Handles-after_reading :
      (r : Reading) (w : World)
      → Acl.is_allowed acl client_addr ≡ true
      → read_request config.timeout w.reads ≡ r
      → Handles (after_reading walk h r w) w
  unfolding after_reading
  Handles-after_reading closed w a read =
      (w.stats, Conducts-pure w, inr ((λ (_, (_, _, _, read', _)). cc (read, read')), refl))
  Handles-after_reading (rejected e) w a read =
      (w.stats, Conducts-raise e w, inr ((λ (_, (_, _, _, read', _)). cc (read, read')), refl))
  Handles-after_reading (complete head remaining_data) w a read =
      Handles-parsed (parse_http_request head) head remaining_data w a read refl

  -- The handler always ends in one of the ways that `Conforms` lists: it never connects twice or
  -- answers twice, sends nothing to a server before it connects, and after an error of its own it does
  -- nothing more. It counts one request exactly if it came to one, and bytes only for a tunnel that
  -- ended well, as many as it relayed.
  pub handle-Handles : (w : World) → Handles (handle walk h w) w
  unfolding handle send_error_response
  handle-Handles w =
      if_intro (λ end. Handles end w) (Acl.is_allowed acl client_addr) _ _
        (λ a. Handles-after_reading (read_request config.timeout w.reads) w a refl)
        (λ a. (w.stats, Conducts-refuse _ _ w, inr ((λ r. cc (r.0, a)), refl)))
