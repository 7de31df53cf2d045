-- ===== src/Connection/Upstream/Forwarding.antt =====
-- What the server of a plain request gets, for `handle_http_request` and `reconstruct_http_request` of
-- src/connection.rs.
use tinyproxy_rust.Prelude.{
  ◌≡◌, refl, ap, sym, ◌∙◌, inl, inr, Bool, true, Bool-cases, Option, none, some, Option-cases, List,
  ℕ, if◌then◌else◌, arith,
}
use tinyproxy_rust.Prelude.Results.{Result, ok, err, ok-inj}
use tinyproxy_rust.Std.Text.{Str, codes, starts_with}
use tinyproxy_rust.Std.Text.Case.{Unicode}
use tinyproxy_rust.Std.Text.Case.Laws.{CaseLaws}
use tinyproxy_rust.Std.HashMap.{get, Iterates}
use tinyproxy_rust.Std.Utf8.{Bytes}
use tinyproxy_rust.Error.{ProxyResult}
use tinyproxy_rust.External.{Url, Crates}
use tinyproxy_rust.Http.{HttpRequest, is_absolute, parse_http_request, reconstruct_http_request}
use tinyproxy_rust.Http.RoundTrip.{reconstruct_round_trip}
use tinyproxy_rust.Connection.Upstream.{
  Target, target_of_url, target_of_host, target_of_header, resolve_target,
}

target_of_host-is_absolute :
    (uri : Str) (r : ProxyResult (Str × ℕ)) (t : Target)
    → target_of_host uri r ≡ ok t
    → is_absolute t.target_uri ≡ true
unfolding target_of_host is_absolute
target_of_host-is_absolute uri (err e) t h = cc h
target_of_host-is_absolute uri (ok (hostname, port)) t h =
    ap (λ k. is_absolute k.target_uri) (sym (ok-inj h)) ∙ (unfold starts_with in refl)

target_of_header-is_absolute :
    (uri : Str) (host : Option Str) (t : Target)
    → target_of_header uri host ≡ ok t
    → is_absolute t.target_uri ≡ true
unfolding target_of_header
target_of_header-is_absolute uri none t h = cc h
target_of_header-is_absolute uri (some host) t h = target_of_host-is_absolute uri _ t h

target_of_url-target_uri :
    (uri : Str) (r : Result Str Url) (t : Target) → target_of_url uri r ≡ ok t → t.target_uri ≡ uri
unfolding target_of_url
target_of_url-target_uri uri (err e) t h = cc h
target_of_url-target_uri uri (ok url) t h = elim (Option-cases url.host_str) [
  | inl n ↦ ground (arith, n, h)
  | inr (host, s) ↦ ground (arith, s, h)
]

module _ ⦃u : Unicode⦄ ⦃x : Crates⦄ where
  abbrev choose : HttpRequest → Bool → ProxyResult Target
  choose request b =
      if b
      then target_of_url request.uri (x.url_parse request.uri)
      else target_of_header request.uri (get (codes "host") request.headers)

  resolve_target-is_absolute :
      (request : HttpRequest) (t : Target)
      → resolve_target request ≡ ok t
      → is_absolute t.target_uri ≡ true
  unfolding resolve_target
  resolve_target-is_absolute request t e = elim (Bool-cases (is_absolute request.uri)) [
    | inl y ↦
        ap is_absolute (
          target_of_url-target_uri request.uri (x.url_parse request.uri) t
            (sym (ap (choose request) y) ∙ e))
        ∙ y
    | inr n ↦
        target_of_header-is_absolute request.uri (get (codes "host") request.headers) t
          (sym (ap (choose request) n) ∙ e)
  ]

  -- Whenever a parsed request has a target, what is sent to the server is parsed again as a request
  -- with the method, the target, the version and the value of every header that the client gave, in
  -- whatever order the headers are walked.
  pub forwarded_round_trip :
      (laws : CaseLaws) (bytes : Bytes) (request : HttpRequest) (t : Target) (es : List (Str × Str))
      → parse_http_request bytes ≡ ok request
      → resolve_target request ≡ ok t
      → Iterates es request.headers
      → (r : HttpRequest) × (parse_http_request (reconstruct_http_request request t.target_uri es)
          ≡ ok r)
        × (r.method ≡ request.method)
        × (r.uri ≡ request.uri)
        × (r.version ≡ request.version)
        × ((k : Str) → get k r.headers ≡ get k request.headers)
  forwarded_round_trip laws bytes request t es parsed resolved walk =
      reconstruct_round_trip laws bytes request t.target_uri es parsed
        (resolve_target-is_absolute request t resolved) walk
