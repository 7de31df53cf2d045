-- ===== src/Filter/Loading.antt =====
-- What a filter that was loaded from its file blocks, for `load_filter_file` and `is_allowed` of
-- src/filter.rs.
use tinyproxy_rust.Prelude.{
  ℕ, suc, ◌≡◌, ◌↔◌, refl, ap, sym, ◌∙◌, inl, inr, Bool, true, false, ◌||◌, Bool-cases, some, List,
  [], ◌∷◌, ◌++◌, map, append-nil, append_assoc, Some, is_empty, if◌then◌else◌, arith,
}
use tinyproxy_rust.Prelude.Results.{Result, ok, err}
use tinyproxy_rust.Std.Text.{Str, codes, trim, starts_with}
use tinyproxy_rust.Std.Text.Case.{Unicode}
use tinyproxy_rust.Config.{Config}
use tinyproxy_rust.External.{Crates}
use tinyproxy_rust.Filter.{
  Filter, FilterRule, FilterFile, fold_case, matches_rule, blocks, is_allowed, rule_of_line,
  add_line, load_lines, load_filter_file, load_if_named, new,
}
use tinyproxy_rust.Filter.Lines.{settings, Blocks, rule_iff}

-- A line that is no rule.
abbrev pub skipped : Str → Bool
skipped line = is_empty line || starts_with (codes "#") line

-- The lines of a file that are rules: those before the first one that cannot be read, trimmed, without
-- empty ones and comments.
pub kept : List (Result Str Str) → List Str
kept [] = []
kept (err e ∷ rest) = []
kept (ok line ∷ rest) =
    let more = kept rest in if skipped (trim line) then more else trim line ∷ more

Some-map :
    (P : FilterRule → Type 0) (g : Str → FilterRule) (xs : List Str)
    → Some P (map g xs) ↔ Some (λ line. P (g line)) xs
Some-map P g [] = (λ s. s, λ s. s)
Some-map P g (x ∷ xs) =
    let (to, from) = Some-map P g xs in
    (elim [ inl p ↦ inl p | inr s ↦ inr (to s) ], elim [ inl p ↦ inl p | inr s ↦ inr (from s) ])

Some-iff :
    (P Q : Str → Type 0)
    → ((line : Str) → P line ↔ Q line)
    → (xs : List Str) → Some P xs ↔ Some Q xs
Some-iff P Q h [] = (λ s. s, λ s. s)
Some-iff P Q h (l ∷ ls) =
    let (to, from) = Some-iff P Q h ls in
    (
      elim [ inl p ↦ inl ((h l).0 p) | inr s ↦ inr (to s) ],
      elim [ inl q ↦ inl ((h l).1 q) | inr s ↦ inr (from s) ],
    )

module _ ⦃u : Unicode⦄ ⦃x : Crates⦄ where
  load_lines-kept :
      (n : ℕ) (f : Filter) (file : List (Result Str Str))
      → (load_lines n f file).0 ≡ record f { rules = f.rules ++ map (rule_of_line f) (kept file) }
  unfolding load_lines add_line rule_of_line kept
  load_lines-kept n f [] = ap (λ rs. record f { rules = rs }) (sym (append-nil f.rules))
  load_lines-kept n f (err e ∷ rest) = ap (λ rs. record f { rules = rs }) (sym (append-nil f.rules))
  load_lines-kept n f (ok line ∷ rest) =
      let r = rule_of_line f (trim line) in
      elim (skipped (trim line))
        as (λ b.
          (load_lines (suc n) (if b then f else record f { rules = f.rules ++ r ∷ [] }) rest).0
          ≡ record f {
            rules =
                f.rules ++ map (rule_of_line f) (if b then kept rest else trim line ∷ kept rest);
          }) [
            | true ↦ load_lines-kept (suc n) f rest
            | false ↦
                load_lines-kept (suc n) (record f { rules = f.rules ++ r ∷ [] }) rest
                ∙ ap (λ rs. record f { rules = rs })
                    (append_assoc f.rules (r ∷ []) (map (rule_of_line f) (kept rest)))
          ]

  blocks_iff :
      (b : Bool) (rules : List FilterRule) (url : Str)
      → (blocks b rules url ≡ true) ↔ Some (λ r. matches_rule b r url ≡ true) rules
  unfolding blocks
  blocks_iff b [] url = (λ e. cc, λ s. absurd s)
  blocks_iff b (r ∷ rs) url =
      let (to, from) = blocks_iff b rs url in
      elim (Bool-cases (matches_rule b r url)) [
        | inl y ↦ (λ e. inl y, λ s. ap (λ t. if t then true else blocks b rs url) y)
        | inr n ↦ (
          (λ e. inr (to (sym (ap (λ t. if t then true else blocks b rs url) n) ∙ e))),
          (λ s. elim s [
            | inl y ↦ ap (λ t. if t then true else blocks b rs url) y
            | inr more ↦ ap (λ t. if t then true else blocks b rs url) n ∙ from more
          ]),
        )
      ]

  loaded :
      (files : Str → FilterFile) (config : Config) (name : Str) (file : List (Result Str Str))
      → config.filter_urls ≡ true
      → config.filter_file ≡ some name
      → files name ≡ ok file
      → new files config
        ≡ record (settings config) { rules = map (rule_of_line (settings config)) (kept file) }
  unfolding new load_if_named load_filter_file
  loaded files config name file on named opened =
      ap
        (λ b.
          if b then load_if_named files config.filter_file (settings config) else settings config)
        on
      ∙ (ap (λ n. load_if_named files n (settings config)) named
          ∙ (ap (λ r. (load_filter_file (settings config) name r).0) opened
              ∙ load_lines-kept 0 (settings config) file))

  is_allowed-blocks :
      (f : Filter) (url : Str)
      → f.enabled ≡ true
      → (is_allowed f url ≡ ok false)
        ↔ (blocks f.case_sensitive f.rules (fold_case f.case_sensitive url) ≡ true)
  unfolding is_allowed
  is_allowed-blocks f url on = (
    (λ e. elim (Bool-cases (blocks f.case_sensitive f.rules (fold_case f.case_sensitive url))) [
      | inl y ↦ y
      | inr n ↦ ground (arith, on, n, e)
    ]),
    (λ y. rw (on, y) refl),
  )

  -- With the filter on and its file open, a target is blocked exactly when one of the lines that count
  -- blocks it: those before the first line that cannot be read, trimmed, neither empty nor a comment. A
  -- line blocks a target if, with extended rules, it is an expression that matches it, or is none and
  -- stands in it; and else if it has a leading dot and is a domain of the target, or has none and stands
  -- in it; all in lower case unless the filter is case-sensitive.
  pub new-is_allowed_iff :
      (files : Str → FilterFile) (config : Config) (name : Str) (file : List (Result Str Str))
      (url : Str)
      → config.filter_urls ≡ true
      → config.filter_file ≡ some name
      → files name ≡ ok file
      → (is_allowed (new files config) url ≡ ok false) ↔ Some (Blocks config url) (kept file)
  new-is_allowed_iff files config name file url on named opened =
      let rule = rule_of_line (settings config) in
      let f = record (settings config) { rules = map rule (kept file) } in
      let target = fold_case config.filter_casesensitive url in
      let (blocked, back) = is_allowed-blocks f url on in
      let (to, from) = blocks_iff config.filter_casesensitive f.rules target in
      let (here, there) =
        Some-map (λ r. matches_rule config.filter_casesensitive r target ≡ true) rule (kept file) in
      let same = ap (λ g. is_allowed g url) (loaded files config name file on named opened) in
      let each = Some-iff _ (Blocks config url) (λ line. rule_iff config line url) (kept file) in
      (
        (λ e. each.0 (here (to (blocked (sym same ∙ e))))),
        (λ s. same ∙ back (from (there (each.1 s)))),
      )
