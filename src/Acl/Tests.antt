-- ===== src/Acl/Tests.antt =====
-- Tests and examples for src/acl.rs.
use tinyproxy_rust.Prelude.{◌≡◌, refl, ◌↔◌, ◌⊎◌, true, false, [], ◌∷◌, Some, arith}
use tinyproxy_rust.Prelude.Results.{ok}
use tinyproxy_rust.Std.Text.{codes, equal, trim, is_whitespace, split_once}
use tinyproxy_rust.Std.Number.{parse_uint}
use tinyproxy_rust.Std.Net.{v4, v6, SocketAddr, parse_ip}
use tinyproxy_rust.Config.{Config, default}
use tinyproxy_rust.Acl.{network, ip_in_network, is_allowed, parse_ip_rule, new}
use tinyproxy_rust.Acl.Network.{InNetwork, ip_in_network_iff}
use tinyproxy_rust.Acl.Rules.{IsRule, parse_ip_rule-IsRule}
use tinyproxy_rust.Acl.Access.{Covers, IsValid, is_allowed_iff}

abbrev home : Config
home = record default {
  allow = codes "192.168.1.0/24" ∷ [];
  deny = codes "192.168.1.100" ∷ codes "bad" ∷ [];
}

abbrev client : SocketAddr
client = record { ip = v4 0xC0A80132; port = 12345 }

client_allowed :
    (is_allowed (new home) client ≡ true)
    × (is_allowed (new home) (record { ip = v4 0xC0A80164; port = 12345 }) ≡ false)
    × (is_allowed (new home) (record { ip = v4 0x0A000001; port = 12345 }) ≡ false)
    × (is_allowed (new default) (record { ip = v6 1; port = 1 }) ≡ true)
unfolding is_allowed new equal trim is_whitespace split_once parse_ip parse_uint
client_allowed = (refl, refl, refl, refl)

rule_parsed : parse_ip_rule (codes " 192.168.1.0/24 ") ≡ ok (network (v4 0xC0A80100) 24)
unfolding parse_ip_rule equal trim is_whitespace split_once parse_ip parse_uint
rule_parsed = refl

ip_in_network_iff_example :
    (ip_in_network (v4 0xC0A80164) (v4 0xC0A80100) 24 ≡ true)
    ↔ InNetwork (v4 0xC0A80164) (v4 0xC0A80100) 24
ip_in_network_iff_example =
    ip_in_network_iff (v4 0xC0A80164) (v4 0xC0A80100) 24 (omega arith) (omega arith) (omega arith)

parse_ip_rule-IsRule_example : IsRule (network (v4 0xC0A80100) 24)
parse_ip_rule-IsRule_example =
    parse_ip_rule-IsRule (codes " 192.168.1.0/24 ") (network (v4 0xC0A80100) 24) rule_parsed

is_allowed_iff_example : (is_allowed (new home) client ≡ true) ↔ (
    ¬ Some (Covers client.ip) home.deny
    × (Some (Covers client.ip) home.allow ⊎ (¬ Some IsValid home.allow × ¬ Some IsValid home.deny)))
is_allowed_iff_example = is_allowed_iff home client (omega arith)
