-- ===== src/Proxy.antt =====
-- src/proxy.rs: the choice of an upstream proxy and of a reverse proxy target, and the headers that
-- the proxy drops and adds. `handle_http_proxy` does nothing.
pub mod Laws
mod Tests
use tinyproxy_rust.Prelude.{
  Bool, true, false, Option, none, some, List, [], ◌∷◌, ◌++◌, if◌then◌else◌,
}
use tinyproxy_rust.Std.Text.{Str, codes, starts_with, ends_with}
use tinyproxy_rust.Std.Text.Case.{Unicode, to_lowercase}
use tinyproxy_rust.Std.HashMap.{insert, remove}
use tinyproxy_rust.Std.Net.{IpAddr}
use tinyproxy_rust.Std.Net.Display.{ip_to_string}
use tinyproxy_rust.Config.{Config, UpstreamConfig, ReverseProxyConfig}

-- `domain` is a suffix of the host.
serves : Str → UpstreamConfig → Bool
serves host upstream = elim upstream.domain [ none ↦ false | some domain ↦ ends_with domain host ]

first_serving : Str → List UpstreamConfig → Option UpstreamConfig
unfolding serves
first_serving host [] = none
first_serving host (upstream ∷ more) =
    let later = first_serving host more in if serves host upstream then some upstream else later

first : List UpstreamConfig → Option UpstreamConfig
first [] = none
first (upstream ∷ more) = some upstream

unfoldable pub should_use_upstream : Config → Str → Option UpstreamConfig
unfolding first_serving first
should_use_upstream config host = elim (first_serving host config.upstream) [
  | some upstream ↦ some upstream
  | none ↦ first config.upstream
]

find_rule : Str → List ReverseProxyConfig → Option Str
find_rule path [] = none
find_rule path (rule ∷ rules) =
    let later = find_rule path rules in if starts_with rule.path path then some rule.url else later

unfoldable pub get_reverse_proxy_target : Config → Str → Option Str
unfolding find_rule
get_reverse_proxy_target config path = find_rule path config.reverse_proxy

pub via_value : Option Str → Str
via_value (some proxy_name) = codes "1.1 " ++ proxy_name
via_value none = codes "1.1 tinyproxy-rust"

module _ ⦃u : Unicode⦄ where
  remove_headers : List Str → List (Str × Str) → List (Str × Str)
  remove_headers [] headers = headers
  remove_headers (header ∷ more) headers =
      remove_headers more (remove (to_lowercase header) headers)

  add_custom : List (Str × Str) → List (Str × Str) → List (Str × Str)
  add_custom [] headers = headers
  add_custom ((name, value) ∷ more) headers =
      add_custom more (insert (to_lowercase name) value headers)

  add_via : Config → List (Str × Str) → List (Str × Str)
  unfolding via_value
  add_via config headers =
      if config.disable_via_header
      then headers
      else insert (codes "via") (via_value config.via_proxy_name) headers

  add_x_tinyproxy : Config → IpAddr → List (Str × Str) → List (Str × Str)
  add_x_tinyproxy config client_ip headers =
      if config.x_tinyproxy
      then insert (codes "x-tinyproxy") (ip_to_string client_ip) headers
      else headers

  -- `added` is the order in which the map of custom headers is walked.
  unfoldable pub process_headers :
      Config → List (Str × Str) → List (Str × Str) → IpAddr → List (Str × Str)
  unfolding remove_headers add_via add_x_tinyproxy add_custom
  process_headers config added headers client_ip =
      add_custom added (
        add_x_tinyproxy config client_ip (add_via config (remove_headers config.anonymous headers)))
