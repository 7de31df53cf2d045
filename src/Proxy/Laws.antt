-- ===== src/Proxy/Laws.antt =====
-- What the headers of src/proxy.rs are after `process_headers`.
use tinyproxy_rust.Prelude.{
  ◌≡◌, refl, ◌∙◌, ap, any, ◌&&◌, not, Bool, Option, none, some, List, [], ◌∷◌, if◌then◌else◌, arith,
}
use tinyproxy_rust.Std.Text.{Str, codes, equal}
use tinyproxy_rust.Std.Text.Case.{Unicode, to_lowercase}
use tinyproxy_rust.Std.HashMap.{get, insert, remove, get-insert, get-remove}
use tinyproxy_rust.Std.Net.{IpAddr}
use tinyproxy_rust.Std.Net.Display.{ip_to_string}
use tinyproxy_rust.Config.{Config}
use tinyproxy_rust.Proxy.{
  via_value, remove_headers, add_custom, add_via, add_x_tinyproxy, process_headers,
}

module _ ⦃u : Unicode⦄ where
  -- Whether one of the names is `k` in lower case.
  abbrev pub named : Str → List Str → Bool
  named k names = any (λ name. equal (to_lowercase name) k) names

  get-remove_headers :
      (names : List Str) (m : List (Str × Str)) (k : Str)
      → get k (remove_headers names m) ≡ (if named k names then none else get k m)
  unfolding remove_headers
  get-remove_headers [] m k = refl
  get-remove_headers (name ∷ more) m k = ground (
    arith,
    get-remove_headers more (remove (to_lowercase name) m) k,
    get-remove (to_lowercase name) k m,
  )

  -- The last of the custom headers with the name `k`.
  abbrev pub custom : Str → List (Str × Str) → Option Str → Option Str
  custom k [] before = before
  custom k ((name, value) ∷ more) before =
      custom k more (if equal (to_lowercase name) k then some value else before)

  get-add_custom :
      (es m : List (Str × Str)) (k : Str) → get k (add_custom es m) ≡ custom k es (get k m)
  unfolding add_custom
  get-add_custom [] m k = refl
  get-add_custom ((name, value) ∷ more) m k =
      get-add_custom more (insert (to_lowercase name) value m) k
      ∙ ap (custom k more) (get-insert (to_lowercase name) k value m)

  -- What stands under a name before the custom headers are added: the proxy's own `x-tinyproxy` and
  -- `via` come before what the client sent, and a name that the configuration lists is dropped.
  abbrev pub own_header : Config → IpAddr → List (Str × Str) → Str → Option Str
  own_header config client_ip headers k =
      if config.x_tinyproxy && equal (codes "x-tinyproxy") k
      then some (ip_to_string client_ip)
      else if not config.disable_via_header && equal (codes "via") k
      then some (via_value config.via_proxy_name)
      else if named k config.anonymous
      then none
      else get k headers

  get-own :
      (config : Config) (headers : List (Str × Str)) (client_ip : IpAddr) (k : Str)
      → get k (
          add_x_tinyproxy config client_ip
            (add_via config (remove_headers config.anonymous headers)))
        ≡ own_header config client_ip headers k
  unfolding add_x_tinyproxy add_via
  get-own config headers client_ip k =
      let kept = remove_headers config.anonymous headers in
      ground (
        arith,
        get-remove_headers config.anonymous headers k,
        get-insert (codes "via") k (via_value config.via_proxy_name) kept,
        get-insert (codes "x-tinyproxy") k (ip_to_string client_ip) (add_via config kept),
        get-insert (codes "x-tinyproxy") k (ip_to_string client_ip) kept,
        get-insert (codes "x-tinyproxy") k (ip_to_string client_ip)
            (insert (codes "via") (via_value config.via_proxy_name) kept),
      )

  -- Under every name, the header that is left is the last custom one of that name, else the proxy's
  -- own if the configuration asks for it, else what the client sent, unless the configuration lists
  -- the name to be dropped.
  pub get-process_headers :
      (config : Config) (added headers : List (Str × Str)) (client_ip : IpAddr) (k : Str)
      → get k (process_headers config added headers client_ip)
        ≡ custom k added (own_header config client_ip headers k)
  unfolding process_headers
  get-process_headers config added headers client_ip k =
      get-add_custom added _ k ∙ ap (custom k added) (get-own config headers client_ip k)
