-- ===== src/Connection/Admission.antt =====
-- No server is connected to but for a client, a request and a target that every check of
-- src/connection.rs has passed.
use tinyproxy_rust.Prelude.{
  ℕ, ◌≡◌, refl, ap, ◌∙◌, ◌⊎◌, inl, inr, true, false, any, Option, none, some, List, [], All,
  Bool-cases,
}
use tinyproxy_rust.Prelude.Results.{ok}
use tinyproxy_rust.Std.Text.{Str, codes, equal}
use tinyproxy_rust.Std.Text.Laws.{equal_iff}
use tinyproxy_rust.Std.Text.Case.{Unicode}
use tinyproxy_rust.Std.Utf8.{Bytes}
use tinyproxy_rust.Config.{BasicAuthConfig}
use tinyproxy_rust.Error.{ProxyError}
use tinyproxy_rust.External.{Crates}
use tinyproxy_rust.Acl
use tinyproxy_rust.Auth
use tinyproxy_rust.Filter
use tinyproxy_rust.Http.{HttpRequest, parse_http_request, parse_host_port}
use tinyproxy_rust.Connection.{
  ConnectionHandler, contains_port, http_methods, connect_target, handle_connect_request,
  handle_http_request, handle_stats_request, by_method, filtered, asks_for_stats, after_auth,
  authenticated, handle_request, after_reading, handle, send_error_response,
}
use tinyproxy_rust.Connection.World.{World, raise, ◌>>=◌}
use tinyproxy_rust.Connection.Reading.{Reading, closed, complete, rejected, read_request}
use tinyproxy_rust.Connection.Upstream.{Target, resolve_target, address}
use tinyproxy_rust.Connection.Upstream.Effects.{Connects-relay, Connects-send_upstream}
use tinyproxy_rust.Connection.World.Effects.{
  OnlyTo, Connects, Connects-imp, Connects-current_stats, Connects-current_time, Connects-pure,
  Connects-raise, Connects-connect, Connects-write_client, Connects-if, Connects-bind_lift,
  Connects-bind, Connects-count_request, connect_rules,
}

module _ ⦃u : Unicode⦄ ⦃x : Crates⦄ (h : ConnectionHandler) where
  open h use {client_addr, config, acl, auth, filter}

  -- The target of a CONNECT request, with a port that is listed.
  pub record IsTunnelTarget (request : HttpRequest) (addr : Str) : Type 0 where
    pub method : request.method ≡ codes "CONNECT"
    pub host : Str
    pub port : ℕ
    pub named : parse_host_port request.uri ≡ ok (host, port)
    pub listed : contains_port config.connect_ports port ≡ true
    pub at : addr ≡ address host port

  -- The target of a request with one of the plain methods.
  pub record IsHttpTarget (request : HttpRequest) (addr : Str) : Type 0 where
    pub target : Target
    pub known : any (equal request.method) http_methods ≡ true
    pub named : resolve_target request ≡ ok target
    pub at : addr ≡ address target.host target.port

  pub record IsChecked (request : HttpRequest) (addr : Str) : Type 0 where
    pub authorised : (config.basic_auth ≡ none) ⊎ (Auth.authenticate auth request ≡ ok true)
    pub not_stats : asks_for_stats config.stat_host request ≡ false
    pub unfiltered : (config.filter_urls ≡ false) ⊎ (Filter.is_allowed filter request.uri ≡ ok true)
    pub target : IsTunnelTarget request addr ⊎ IsHttpTarget request addr

  -- The client was admitted, its head was read whole and parsed, and the request passed the checks.
  pub record IsAdmitted (w : World) (addr : Str) : Type 0 where
    pub client : Acl.is_allowed acl client_addr ≡ true
    pub head : Bytes
    pub remaining : Bytes
    pub request : HttpRequest
    pub read : read_request config.timeout w.reads ≡ complete head remaining
    pub parsed : parse_http_request head ≡ ok request
    pub checked : IsChecked request addr

module _ {G : Str → Type 0} where
  Connects-send_error_response :
      (status_code : ℕ) (reason : Str) → Connects G (send_error_response status_code reason)
  unfolding send_error_response
  Connects-send_error_response status_code reason = search connect_rules

  -- An answer to the client, and an error.
  Connects-refuse :
      {A : Type 0} (status_code : ℕ) (reason : Str) (e : ProxyError)
      → Connects G (send_error_response status_code reason >>= λ (_ : Unit {0}). raise {A = A} e)
  Connects-refuse status_code reason e =
      Connects-bind _ _ (Connects-send_error_response status_code reason) (λ _. Connects-raise e)

module _ ⦃u : Unicode⦄ ⦃x : Crates⦄ (walk : List (Str × Str) → List (Str × Str))
    (h : ConnectionHandler) where
  open h use {client_addr, config, acl, auth, filter}

  Connects-handle_connect_request :
      (request : HttpRequest)
      → request.method ≡ codes "CONNECT"
      → Connects (IsTunnelTarget h request) (handle_connect_request walk h request)
  unfolding handle_connect_request connect_target
  Connects-handle_connect_request request connects =
      Connects-bind_lift (parse_host_port request.uri) _ λ t named.
        Connects-if (contains_port config.connect_ports t.1) _ _
          (λ listed.
            Connects-bind _ _
              (Connects-connect (address t.0 t.1) (record {
                method = connects;
                host = t.0;
                port = t.1;
                named = named;
                listed = listed;
                at = refl;
              }))
              (λ _. search (connect_rules, Connects-relay)))
          (λ _. Connects-refuse 403 _ _)

  Connects-handle_http_request :
      (request : HttpRequest) (remaining_data : Bytes)
      → any (equal request.method) http_methods ≡ true
      → Connects (IsHttpTarget h request) (handle_http_request walk h request remaining_data)
  unfolding handle_http_request
  Connects-handle_http_request request remaining_data known =
      Connects-bind_lift (resolve_target request) _ λ target named.
        Connects-send_upstream request remaining_data (walk request.headers) target
          (record { target = target; known = known; named = named; at = refl })

  abbrev IsTarget : HttpRequest → Str → Type 0
  IsTarget request addr = IsTunnelTarget h request addr ⊎ IsHttpTarget h request addr

  Connects-by_method :
      (request : HttpRequest) (remaining_data : Bytes)
      → Connects (IsTarget request) (by_method walk h request remaining_data)
  unfolding by_method
  Connects-by_method request remaining_data =
      Connects-if (equal request.method (codes "CONNECT")) _ _
        (λ connects.
          Connects-imp _ (λ addr. inl)
            (Connects-handle_connect_request request
              ((equal_iff request.method (codes "CONNECT")).0 connects)))
        (λ _.
          Connects-if (any (equal request.method) http_methods) _ _
            (λ known.
              Connects-imp _ (λ addr. inr)
                (Connects-handle_http_request request remaining_data known))
            (λ _. Connects-refuse 405 _ _))

  abbrev IsUnfiltered : HttpRequest → Type 0
  IsUnfiltered request =
      (config.filter_urls ≡ false) ⊎ (Filter.is_allowed filter request.uri ≡ ok true)

  Connects-filtered :
      (request : HttpRequest) (remaining_data : Bytes)
      → Connects
          (λ addr. IsUnfiltered request × IsTarget request addr)
          (filtered walk h request remaining_data)
  unfolding filtered
  Connects-filtered request remaining_data =
      Connects-if config.filter_urls _ _
        (λ _. Connects-bind_lift (Filter.is_allowed filter request.uri) _ λ allowed passed.
          Connects-if allowed _ _
            (λ yes'.
              Connects-imp _ (λ addr t. (inr (passed ∙ ap ok yes'), t))
                (Connects-by_method request remaining_data))
            (λ _. Connects-refuse 403 _ _))
        (λ off. Connects-imp _ (λ addr t. (inl off, t)) (Connects-by_method request remaining_data))

  Connects-handle_stats_request : {G : Str → Type 0} → Connects G (handle_stats_request walk h)
  unfolding handle_stats_request
  Connects-handle_stats_request =
      Connects-bind _ _ Connects-current_stats
        λ stats. Connects-bind _ _ Connects-current_time λ now. Connects-write_client _

  Connects-after_auth :
      (request : HttpRequest) (remaining_data : Bytes)
      → (config.basic_auth ≡ none) ⊎ (Auth.authenticate auth request ≡ ok true)
      → Connects (IsChecked h request) (after_auth walk h request remaining_data)
  unfolding after_auth
  Connects-after_auth request remaining_data authorised =
      Connects-if (asks_for_stats config.stat_host request) _ _ (λ _. Connects-handle_stats_request)
        (λ not_stats.
          Connects-imp _
            (λ addr t. record {
              authorised = authorised;
              not_stats = not_stats;
              unfiltered = t.0;
              target = t.1;
            })
            (Connects-filtered request remaining_data))

  Connects-authenticated :
      (account : Option BasicAuthConfig) (request : HttpRequest) (remaining_data : Bytes)
      → config.basic_auth ≡ account
      → Connects (IsChecked h request) (authenticated walk h account request remaining_data)
  unfolding authenticated
  Connects-authenticated none request remaining_data e =
      Connects-after_auth request remaining_data (inl e)
  Connects-authenticated (some account) request remaining_data e =
      Connects-bind_lift (Auth.authenticate auth request) _ λ allowed passed.
        Connects-if allowed _ _
          (λ yes'. Connects-after_auth request remaining_data (inr (passed ∙ ap ok yes')))
          (λ _. Connects-bind _ _ (Connects-write_client _) (λ _. Connects-raise _))

  Connects-after_reading :
      (w : World)
      → Acl.is_allowed acl client_addr ≡ true
      → (r : Reading) → read_request config.timeout w.reads ≡ r
      → Connects (IsAdmitted h w) (after_reading walk h r)
  unfolding after_reading handle_request
  Connects-after_reading w client closed e = Connects-pure tt
  Connects-after_reading w client (rejected err') e = Connects-raise err'
  Connects-after_reading w client (complete head remaining) e =
      Connects-bind_lift (parse_http_request head) _ λ request parsed.
        Connects-bind _ _ Connects-count_request λ _.
          Connects-imp _
            (λ addr checked. record {
              client = client;
              head = head;
              remaining = remaining;
              request = request;
              read = e;
              parsed = parsed;
              checked = checked;
            })
            (Connects-authenticated config.basic_auth request remaining refl)

  -- From a fresh world, every connection that the handler makes is one to an address for which the
  -- client was admitted by the access control, a whole head was read and parsed, the account (if one
  -- is configured) was proved, the request is not one for the statistics, the filter (if it is on) let
  -- the target pass, and the address is the target of a CONNECT request with a listed port or of a
  -- request with a known plain method.
  pub handle-IsAdmitted :
      (w : World) → w.trace ≡ [] → All (OnlyTo (IsAdmitted h w)) (handle walk h w).1.trace
  unfolding handle
  handle-IsAdmitted w fresh =
      let start : All (OnlyTo (IsAdmitted h w)) w.trace = rw fresh tt in
      elim (Bool-cases (Acl.is_allowed acl client_addr)) [
        | inl client ↦ rw client (
            (Connects-after_reading w client (read_request config.timeout w.reads) refl).at _
              (λ addr g. g) w start)
        | inr denied ↦ rw denied (
            (Connects-refuse {G = IsAdmitted h w} {A = Unit {0}} 403 _ _).at _ (λ addr g. g) w
              start)
      ]
