-- ===== src/Acl/Rules.antt =====
-- What `parse_ip_rule` of src/acl.rs returns, and when a rule matches an address.
use tinyproxy_rust.Prelude.{
  ◌≤◌, ◌≡◌, refl, ◌↔◌, inl, inr, true, ◌||◌, List, [], ◌∷◌, All, Some, arith, ◌==◌, Bool-cases,
  Option-cases,
}
use tinyproxy_rust.Prelude.Results.{Result, ok, err}
use tinyproxy_rust.Std.Text.{Str, codes, equal, trim, split_once}
use tinyproxy_rust.Std.Number.{parse_uint, u8_max}
use tinyproxy_rust.Std.Net.{IpAddr, v4, v6, parse_ip}
use tinyproxy_rust.Std.Net.Bounds.{IsAddr, parse_ip-IsAddr}
use tinyproxy_rust.Acl.{
  IpRule, single, network, everyone, same_ip, matches_rule, matches_any, max_prefix, parse_network,
  parse_address, parse_trimmed, parse_ip_rule, keep_rule, parse_rules,
}
use tinyproxy_rust.Acl.Network.{InNetwork, ip_in_network_iff}

abbrev pub IsRule : IpRule → Type 0
IsRule everyone = Unit
IsRule (single ip) = IsAddr ip
IsRule (network net prefix) = IsAddr net × (prefix ≤ max_prefix net)

abbrev pub Matches : IpRule → IpAddr → Type 0
Matches everyone ip = Unit
Matches (single rule_ip) ip = ip ≡ rule_ip
Matches (network net prefix) ip = InNetwork ip net prefix

same_ip_iff : (a b : IpAddr) → (same_ip a b ≡ true) ↔ (a ≡ b)
same_ip_iff (v4 a) (v4 b) = ground arith
same_ip_iff (v6 a) (v6 b) = ground arith
same_ip_iff _ _ = ground arith

pub matches_rule_iff :
    (r : IpRule) (ip : IpAddr) → IsRule r → IsAddr ip → (matches_rule r ip ≡ true) ↔ Matches r ip
unfolding matches_rule
matches_rule_iff everyone ip h k = (λ _. tt, λ _. refl)
matches_rule_iff (single a) ip h k = same_ip_iff ip a
matches_rule_iff (network net prefix) ip (h, p) k = ip_in_network_iff ip net prefix k h p

parse_network-IsRule : (n p : Str) (r : IpRule) → parse_network n p ≡ ok r → IsRule r
unfolding parse_network
parse_network-IsRule n p r e = elim (Option-cases (parse_ip n)) [
  | inl x ↦ ground (arith, x)
  | inr (net, x) ↦ elim (Option-cases (parse_uint u8_max p)) [
    | inl y ↦ ground (arith, x, y)
    | inr (prefix, y) ↦ ground (arith, x, y, parse_ip-IsAddr n net x)
  ]
]

parse_address-IsRule : (s : Str) (r : IpRule) → parse_address s ≡ ok r → IsRule r
unfolding parse_address
parse_address-IsRule s r e = elim (Option-cases (parse_ip s)) [
  | inl x ↦ ground (arith, x)
  | inr (a, x) ↦ ground (arith, x, parse_ip-IsAddr s a x)
]

parse_trimmed-IsRule : (s : Str) (r : IpRule) → parse_trimmed s ≡ ok r → IsRule r
unfolding parse_trimmed
parse_trimmed-IsRule s r e = elim (Bool-cases (equal s (codes "all") || equal s (codes "*"))) [
  | inl x ↦ let h : r ≡ everyone = ground (arith, x) in rw h tt
  | inr x ↦ elim (Option-cases (split_once (λ c. c == b'/') s)) [
    | inl y ↦ parse_address-IsRule s r (rw (x, y, parse_trimmed) at e)
    | inr (p, y) ↦ parse_network-IsRule p.0 p.1 r (rw (x, y, parse_trimmed) at e)
  ]
]

-- A rule that `parse_ip_rule` accepts has an address that fits its type and a prefix that is no
-- longer than the address.
pub parse_ip_rule-IsRule : (s : Str) (r : IpRule) → parse_ip_rule s ≡ ok r → IsRule r
unfolding parse_ip_rule
parse_ip_rule-IsRule s r e = parse_trimmed-IsRule (trim s) r e

keep_rule-IsRule :
    (o : Result Str IpRule) (rules : List IpRule)
    → ((r : IpRule) → o ≡ ok r → IsRule r)
    → All IsRule rules
    → All IsRule (keep_rule o rules)
unfolding keep_rule
keep_rule-IsRule (ok r) rules h k = (h r refl, k)
keep_rule-IsRule (err e) rules h k = k

pub parse_rules-IsRule : (rules : List Str) → All IsRule (parse_rules rules)
unfolding parse_rules
parse_rules-IsRule [] = tt
parse_rules-IsRule (s ∷ rules) =
    keep_rule-IsRule (parse_ip_rule s) _ (parse_ip_rule-IsRule s) (parse_rules-IsRule rules)

pub matches_any_iff :
    (rules : List IpRule) (ip : IpAddr)
    → All IsRule rules
    → IsAddr ip
    → (matches_any rules ip ≡ true) ↔ Some (λ r. Matches r ip) rules
unfolding matches_any
matches_any_iff [] ip h k = ground arith
matches_any_iff (r ∷ rules) ip (h, hs) k =
    let (to, from) = matches_rule_iff r ip h k in
    let (to_rest, from_rest) = matches_any_iff rules ip hs k in
    elim (Bool-cases (matches_rule r ip)) [
      | inl x ↦ rw x (λ _. inl (to x), λ _. refl)
      | inr x ↦ rw x (λ e. inr (to_rest e), elim [ inl m ↦ cc (from m) | inr m ↦ from_rest m ])
    ]
