-- ===== src/Acl.antt =====
-- src/acl.rs: access control by the client's address. A list of deny rules goes before a list of
-- allow rules, and no matching rule means no access.
pub mod Rules
pub mod Network
pub mod Access
mod Tests
use tinyproxy_rust.Prelude.{
  ℕ, ◌-◌, Bool, true, false, ◌&&◌, ◌||◌, Option, none, some, List, [], ◌∷◌, ◌++◌, is_empty, any,
  bit_and, ltb, ◌==◌, if◌then◌else◌,
}
use tinyproxy_rust.Prelude.Results.{Result, ok, err, ok_or, ◌>>=◌}
use tinyproxy_rust.Std.Text.{Str, codes, equal, trim, split_once}
use tinyproxy_rust.Std.Number.{parse_uint, u8_max}
use tinyproxy_rust.Std.Bits.{bit_not, shl, sub_u8}
use tinyproxy_rust.Std.Net.{IpAddr, v4, v6, SocketAddr, parse_ip}
use tinyproxy_rust.Config.{Config}

pub data IpRule : Type 0 where
  single : IpAddr → IpRule
  network : IpAddr → ℕ → IpRule
  everyone : IpRule

pub record AccessControl : Type 0 where
  pub allow_rules : List IpRule
  pub deny_rules : List IpRule

-- The mask of a prefix on words of `w` bits. The subtraction from the width is on `u8`.
net_mask : ℕ → ℕ → ℕ
net_mask w prefix = if prefix == 0 then 0 else bit_not w (shl w 1 (sub_u8 w prefix) - 1)

pub ip_in_network : IpAddr → IpAddr → ℕ → Bool
unfolding net_mask
ip_in_network (v4 ip_bits) (v4 net_bits) prefix =
    let mask = net_mask 32 prefix in bit_and ip_bits mask == bit_and net_bits mask
ip_in_network (v6 ip_bits) (v6 net_bits) prefix =
    let mask = net_mask 128 prefix in bit_and ip_bits mask == bit_and net_bits mask
ip_in_network _ _ prefix = false

-- `==` on addresses.
abbrev same_ip : IpAddr → IpAddr → Bool
same_ip (v4 a) (v4 b) = a == b
same_ip (v6 a) (v6 b) = a == b
same_ip _ _ = false

pub matches_rule : IpRule → IpAddr → Bool
unfolding ip_in_network
matches_rule everyone ip = true
matches_rule (single rule_ip) ip = same_ip ip rule_ip
matches_rule (network net prefix) ip = ip_in_network ip net prefix

-- The two loops of `is_allowed`: the first rule that matches decides.
pub matches_any : List IpRule → IpAddr → Bool
unfolding matches_rule
matches_any [] ip = false
matches_any (r ∷ rs) ip = let rest = matches_any rs ip in if matches_rule r ip then true else rest

unfoldable pub is_allowed : AccessControl → SocketAddr → Bool
unfolding matches_any
is_allowed acl addr =
    if matches_any acl.deny_rules addr.ip
    then false
    else if matches_any acl.allow_rules addr.ip
    then true
    else false

abbrev pub max_prefix : IpAddr → ℕ
max_prefix (v4 _) = 32
max_prefix (v6 _) = 128

-- The part of `parse_ip_rule` for `network/prefix`.
parse_network : Str → Str → Result Str IpRule
parse_network network_str prefix_str = do
  net ← ok_or (parse_ip network_str) (codes "Invalid network address")
  prefix ← ok_or (parse_uint u8_max prefix_str) (codes "Invalid prefix length")
  if ltb (max_prefix net) prefix
      then err (codes "Prefix length too large for IP version")
      else ok (network net prefix)

parse_address : Str → Result Str IpRule
parse_address rule = do ip ← ok_or (parse_ip rule) (codes "Invalid IP address"); ok (single ip)

-- The texts of the errors, which are only logged, leave out the cause.
parse_trimmed : Str → Result Str IpRule
unfolding parse_network parse_address
parse_trimmed rule =
    if equal rule (codes "all") || equal rule (codes "*")
    then ok everyone
    else elim (split_once (λ c. c == b'/') rule) [
      | some (network_str, prefix_str) ↦ parse_network network_str prefix_str
      | none ↦ parse_address rule
    ]

unfoldable pub parse_ip_rule : Str → Result Str IpRule
unfolding parse_trimmed
parse_ip_rule rule = parse_trimmed (trim rule)

-- One round of the loops of `AccessControl::new`: an invalid rule is dropped with a warning.
keep_rule : Result Str IpRule → List IpRule → List IpRule
keep_rule (ok rule) rules = rule ∷ rules
keep_rule (err e) rules = rules

pub parse_rules : List Str → List IpRule
unfolding keep_rule parse_ip_rule
parse_rules [] = []
parse_rules (rule ∷ rules) = keep_rule (parse_ip_rule rule) (parse_rules rules)

unfoldable pub new : Config → AccessControl
unfolding parse_rules
new config =
    let allow_rules = parse_rules config.allow in
    let deny_rules = parse_rules config.deny in
    record {
      allow_rules =
          if is_empty allow_rules && is_empty deny_rules then everyone ∷ [] else allow_rules;
      deny_rules = deny_rules;
    }
