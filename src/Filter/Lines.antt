-- ===== src/Filter/Lines.antt =====
-- When a line of a filter file blocks a target, for `load_filter_file` and `matches_rule` of
-- src/filter.rs.
use tinyproxy_rust.Prelude.{
  ◌≢◌, ◌⊎◌, Option, none, ◌≡◌, ◌↔◌, refl, ap, sym, ◌∙◌, inl, inr, Bool, true, false, Bool-cases,
  some, [], ◌∷◌, if◌then◌else◌,
}
use tinyproxy_rust.Std.Text.{Str, codes, starts_with}
use tinyproxy_rust.Std.Text.Laws.{IsPart, contains_iff, starts_with_iff}
use tinyproxy_rust.Std.Text.Case.{Unicode}
use tinyproxy_rust.Config.{Config}
use tinyproxy_rust.External.{Crates}
use tinyproxy_rust.Filter.{
  exact, regex, domain, Filter, FilterRule, fold_case, matches_rule, rule_of_line,
}
use tinyproxy_rust.Filter.Laws.{InTarget, folded, fold_case-folded, matches_rule-domain_iff}

-- A filter without rules.
abbrev pub settings : Config → Filter
settings config = record {
  enabled = config.filter_urls;
  rules = [];
  case_sensitive = config.filter_casesensitive;
  extended = config.filter_extended;
}

test-inj : (s t : Str → Bool) → ◌≡◌ {A = Option (Str → Bool)} (some s) (some t) → s ≡ t
test-inj s t e = cc e

bare_dot : (line : Str) → ((rest : Str) → line ≢ b'.' ∷ rest) → starts_with (codes ".") line ≡ false
bare_dot line bare = elim (Bool-cases (starts_with (codes ".") line)) [
  | inl y ↦ (let (r, e) = (starts_with_iff (codes ".") line).0 y in absurd (bare r e))
  | inr n ↦ n
]

module _ ⦃u : Unicode⦄ ⦃x : Crates⦄ where
  -- The line, a rule of the filter, blocks the target. With extended rules, the line is an expression
  -- that matches, or it is none and stands in the target; else it is a domain if it has a leading dot,
  -- and otherwise it stands in the target. Line, target and host are in lower case unless the filter is
  -- case-sensitive.
  abbrev pub Blocks : Config → Str → Str → Type 0
  Blocks config url line =
      let b = config.filter_casesensitive in
      ((config.filter_extended ≡ true)
        × (((test : Str → Bool) × (x.regex_new (folded b line) ≡ some test)
              × (test (folded b url) ≡ true))
            ⊎ ((x.regex_new (folded b line) ≡ none) × IsPart (folded b line) (folded b url))))
      ⊎ (((config.filter_extended ≡ false)
            × ((rest : Str) × (line ≡ b'.' ∷ rest))
            × InTarget b (folded b line) (folded b url))
          ⊎ ((config.filter_extended ≡ false)
              × ((rest : Str) → line ≢ b'.' ∷ rest)
              × IsPart (folded b line) (folded b url)))

  extended_iff :
      (b : Bool) (text url : Str) (o : Option (Str → Bool))
      → (matches_rule b (elim o [ some test ↦ regex test | none ↦ exact text ]) url ≡ true) ↔ (
          ((test : Str → Bool) × (o ≡ some test) × (test url ≡ true))
          ⊎ ((o ≡ none) × IsPart text url))
  unfolding matches_rule
  extended_iff b text url none =
      let (to, from) = contains_iff text url in
      ((λ e. inr (refl, to e)), (λ h. elim h [ inl (t, n, _) ↦ cc n | inr (_, part) ↦ from part ]))
  extended_iff b text url (some test) = (
    (λ e. inl (test, refl, e)),
    (λ h. elim h [
      | inl (t, e, hit) ↦ ap (λ k. k url) (test-inj test t e) ∙ hit
      | inr (n, _) ↦ cc n
    ]),
  )

  abbrev rule_as : Bool → Bool → Str → FilterRule
  rule_as extended dot text =
      if extended
      then elim (x.regex_new text) [ some test ↦ regex test | none ↦ exact text ]
      else if dot
      then domain text
      else exact text

  abbrev BlocksAs : Bool → Bool → Bool → Str → Str → Type 0
  BlocksAs b extended dot text url =
      ((extended ≡ true)
        × (((test : Str → Bool) × (x.regex_new text ≡ some test) × (test url ≡ true))
            ⊎ ((x.regex_new text ≡ none) × IsPart text url)))
      ⊎ (((extended ≡ false) × (dot ≡ true) × InTarget b text url)
          ⊎ ((extended ≡ false) × (dot ≡ false) × IsPart text url))

  rule_as_iff :
      (b extended dot : Bool) (text url : Str)
      → (matches_rule b (rule_as extended dot text) url ≡ true) ↔ BlocksAs b extended dot text url
  rule_as_iff b true dot text url =
      let (to, from) = extended_iff b text url (x.regex_new text) in
      (
        (λ e. inl (refl, to e)),
        (λ h. elim h [
          | inl (_, k) ↦ from k
          | inr k ↦ elim k [ inl (n, _, _) ↦ cc n | inr (n, _, _) ↦ cc n ]
        ]),
      )
  rule_as_iff b false true text url =
      let (to, from) = matches_rule-domain_iff b text url in
      (
        (λ e. inr (inl (refl, refl, to e))),
        (λ h. elim h [
          | inl (n, _) ↦ cc n
          | inr k ↦ elim k [ inl (_, _, has) ↦ from has | inr (_, n, _) ↦ cc n ]
        ]),
      )
  rule_as_iff b false false text url =
      let (to, from) = contains_iff text url in
      (
        (λ e. inr (inr (refl, refl, to (unfold matches_rule in e)))),
        (λ h. elim h [
          | inl (n, _) ↦ cc n
          | inr k ↦ elim k [
            | inl (_, n, _) ↦ cc n
            | inr (_, _, part) ↦ (unfold matches_rule in from part)
          ]
        ]),
      )

  pub rule_iff :
      (config : Config) (line url : Str)
      → (matches_rule config.filter_casesensitive
            (rule_of_line (settings config) line)
            (fold_case config.filter_casesensitive url)
          ≡ true)
        ↔ Blocks config url line
  unfolding rule_of_line
  rule_iff config line url =
      let b = config.filter_casesensitive in
      let ext = config.filter_extended in
      let dot = starts_with (codes ".") line in
      let (to, from) = rule_as_iff b ext dot (folded b line) (folded b url) in
      let (split, join) = starts_with_iff (codes ".") line in
      let same =
        ap (λ t. matches_rule b (rule_as ext dot t) (fold_case b url)) (fold_case-folded b line)
        ∙ ap (matches_rule b (rule_as ext dot (folded b line))) (fold_case-folded b url) in
      (
        (λ e. elim (to (sym same ∙ e)) [
          | inl h ↦ inl h
          | inr k ↦ elim k [
            | inl (off, d, has) ↦ inr (inl (off, split d, has))
            | inr (off, d, part) ↦ inr (inr (off, (λ r eq. cc (d, join (r, eq))), part))
          ]
        ]),
        (λ h.
            same
            ∙ from (elim h [
              | inl k ↦ inl k
              | inr k ↦ elim k [
                | inl (off, d, has) ↦ inr (inl (off, join d, has))
                | inr (off, bare, part) ↦ inr (inr (off, bare_dot line bare, part))
              ]
            ])),
      )
