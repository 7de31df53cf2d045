-- ===== src/Proxy/Tests.antt =====
-- Tests and examples for src/proxy.rs.
use tinyproxy_rust.Prelude.{◌≡◌, refl, true, none, some, List, [], ◌∷◌}
use tinyproxy_rust.Std.Text.{Str, codes, equal, ends_with, starts_with}
use tinyproxy_rust.Std.HashMap.{get}
use tinyproxy_rust.Std.Net.{v4}
use tinyproxy_rust.Samples.{plain_unicode}
use tinyproxy_rust.Config.{Config, UpstreamConfig, default}
use tinyproxy_rust.Proxy.{process_headers, should_use_upstream, get_reverse_proxy_target}
use tinyproxy_rust.Proxy.Laws.{custom, own_header, get-process_headers}

abbrev quiet : Config
quiet = record default { anonymous = codes "Cookie" ∷ []; x_tinyproxy = true }

abbrev cookie : List (Str × Str)
cookie = (codes "cookie", codes "a=1") ∷ []

abbrev inner : UpstreamConfig
inner = record {
  upstream_type = codes "http";
  host = codes "10.0.0.1";
  port = 3128;
  username = none;
  password = none;
  domain = some (codes ".inner.org");
}

inner_host :
    should_use_upstream (record default { upstream = inner ∷ [] }) (codes "a.inner.org")
    ≡ some inner
unfolding should_use_upstream ends_with equal
inner_host = refl

reverse_path :
    get_reverse_proxy_target
      (record default {
        reverse_proxy = record { path = codes "/a"; url = codes "http://b/" } ∷ [];
      })
      (codes "/a/c")
    ≡ some (codes "http://b/")
unfolding get_reverse_proxy_target starts_with
reverse_path = refl

get-process_headers_example :
    get (codes "cookie") (process_headers quiet [] cookie (v4 0x7F000001))
    ≡ custom (codes "cookie") [] (own_header quiet (v4 0x7F000001) cookie (codes "cookie"))
get-process_headers_example = get-process_headers quiet [] cookie (v4 0x7F000001) (codes "cookie")
