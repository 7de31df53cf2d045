-- ===== src/Acl/Access.antt =====
-- Which clients a configuration admits, for `AccessControl::new` and `is_allowed` of src/acl.rs.
use tinyproxy_rust.Prelude.{
  ◌≡◌, refl, sym, subst, ◌↔◌, ◌⊎◌, inl, inr, true, false, ◌&&◌, List, [], ◌∷◌, Some, is_empty,
  Bool-cases, arith,
}
use tinyproxy_rust.Prelude.Results.{ok, ok-inj, ok-ne-err, Result-cases}
use tinyproxy_rust.Std.Text.{Str}
use tinyproxy_rust.Std.Net.{IpAddr, SocketAddr}
use tinyproxy_rust.Std.Net.Bounds.{IsAddr}
use tinyproxy_rust.Config.{Config}
use tinyproxy_rust.Acl.{IpRule, matches_any, is_allowed, parse_ip_rule, keep_rule, parse_rules, new}
use tinyproxy_rust.Acl.Rules.{Matches, parse_rules-IsRule, matches_any_iff}

-- The text of a rule that the parser accepts, and that the address matches.
abbrev pub Covers : IpAddr → Str → Type 0
Covers ip text = (r : IpRule) × (parse_ip_rule text ≡ ok r) × Matches r ip

abbrev pub IsValid : Str → Type 0
IsValid text = (r : IpRule) × (parse_ip_rule text ≡ ok r)

covered_iff :
    (ip : IpAddr) (texts : List Str)
    → Some (λ r. Matches r ip) (parse_rules texts) ↔ Some (Covers ip) texts
unfolding parse_rules keep_rule
covered_iff ip [] = (λ h. h, λ h. h)
covered_iff ip (s ∷ texts) =
    let (to, from) = covered_iff ip texts in
    elim (Result-cases (parse_ip_rule s)) [
      | inl (r, x) ↦ rw x (
        elim [ inl m ↦ inl (r, refl, m) | inr m ↦ inr (to m) ],
        elim [
          | inl (q, y, m) ↦ inl (subst (λ z. Matches z ip) (sym (ok-inj y)) m)
          | inr m ↦ inr (from m)
        ],
      )
      | inr (e, x) ↦
          rw x
            (λ m. inr (to m), elim [ inl (q, y, m) ↦ absurd (ok-ne-err (sym y)) | inr m ↦ from m ])
    ]

IsValid-iff : (texts : List Str) → (is_empty (parse_rules texts) ≡ false) ↔ Some IsValid texts
unfolding parse_rules keep_rule
IsValid-iff [] = (λ h. cc, λ h. absurd h)
IsValid-iff (s ∷ texts) =
    let (to, from) = IsValid-iff texts in
    elim (Result-cases (parse_ip_rule s)) [
      | inl (r, x) ↦ rw x (λ _. inl (r, refl), λ _. refl)
      | inr (e, x) ↦
          rw x (λ h. inr (to h), elim [ inl (q, y) ↦ absurd (ok-ne-err (sym y)) | inr m ↦ from m ])
    ]

pub matches_any-parse_rules_iff :
    (ip : IpAddr) (texts : List Str)
    → IsAddr ip
    → (matches_any (parse_rules texts) ip ≡ true) ↔ Some (Covers ip) texts
matches_any-parse_rules_iff ip texts h =
    let (to, from) = matches_any_iff (parse_rules texts) ip (parse_rules-IsRule texts) h in
    let (here, back) = covered_iff ip texts in (λ e. here (to e), λ s. from (back s))

-- No valid rule, told from the parsed list.
not-IsValid : (texts : List Str) → is_empty (parse_rules texts) ≡ true → ¬ Some IsValid texts
not-IsValid texts h v = cc (h, (IsValid-iff texts).1 v)

Some-IsValid :
    (allows denies : List Str)
    → (is_empty (parse_rules allows) && is_empty (parse_rules denies)) ≡ false
    → ¬ (¬ Some IsValid allows × ¬ Some IsValid denies)
Some-IsValid allows denies h (na, nd) = elim (Bool-cases (is_empty (parse_rules allows))) [
  | inr x ↦ na ((IsValid-iff allows).0 x)
  | inl x ↦ nd ((IsValid-iff denies).0 (ground (arith, x, h)))
]

-- A client is admitted exactly when no valid deny rule covers its address, and a valid allow rule
-- does or the configuration has no valid rule of either kind. The order of the rules, also between
-- the two lists, plays no part, and invalid rules count for nothing.
pub is_allowed_iff :
    (c : Config) (addr : SocketAddr)
    → IsAddr addr.ip
    → (is_allowed (new c) addr ≡ true) ↔ (
        ¬ Some (Covers addr.ip) c.deny
        × (Some (Covers addr.ip) c.allow ⊎ (¬ Some IsValid c.allow × ¬ Some IsValid c.deny)))
unfolding is_allowed new
is_allowed_iff c addr h =
    let ip = addr.ip in
    let (denied, deny) = matches_any-parse_rules_iff ip c.deny h in
    let (covered, cover) = matches_any-parse_rules_iff ip c.allow h in
    elim (Bool-cases (matches_any (parse_rules c.deny) ip)) [
      | inl x ↦ rw x (λ e. cc, λ p. absurd (p.0 (denied x)))
      | inr x ↦
          elim (Bool-cases (is_empty (parse_rules c.allow) && is_empty (parse_rules c.deny))) [
            | inl y ↦
                rw (x, y)
                  (
                    λ _. (
                      λ s. cc (x, deny s),
                      inr (
                        not-IsValid c.allow (ground (arith, y)),
                        not-IsValid c.deny (ground (arith, y)),
                      ),
                    ),
                    λ _. refl,
                  )
            | inr y ↦
                rw (x, y)
                  (
                    λ e. (λ s. cc (x, deny s), inl (covered (ground (arith, e)))),
                    λ p. elim p.1 [
                      | inl s ↦ rw (cover s)
                      | inr n ↦ absurd (Some-IsValid c.allow c.deny y n)
                    ],
                  )
          ]
    ]
