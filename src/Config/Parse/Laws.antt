-- ===== src/Config/Parse/Laws.antt =====
-- What holds of every configuration that `parse_config` of src/config.rs gives.
use tinyproxy_rust.Prelude.{
  ◌≡◌, refl, ap, subst, sym, ◌∙◌, Option, none, some, Option-cases, List, [], ◌∷◌, is_empty, ◌||◌,
  inl, inr, if_intro, arith,
}
use tinyproxy_rust.Prelude.Results.{ok, ok-inj, >>=-eq-ok}
use tinyproxy_rust.Std.Text.{Str, codes, trim, is_whitespace, starts_with, split_once}
use tinyproxy_rust.Std.Text.Case.{Unicode, to_lowercase}
use tinyproxy_rust.Std.Text.Lines.{lines}
use tinyproxy_rust.Std.HashMap.{get}
use tinyproxy_rust.Config.{Config, default}
use tinyproxy_rust.Config.Parse.{
  keys, apply_known, apply_parts, parse_line, parse_lines, parse_config,
}
use tinyproxy_rust.Config.Parse.WellFormed.{IsWellFormed}
use tinyproxy_rust.Config.Parse.Options.{apply-IsWellFormed}

module _ ⦃u : Unicode⦄ where
  apply_parts-IsWellFormed :
      (o : Option (Str × Str)) (c d : Config)
      → IsWellFormed c
      → apply_parts o c ≡ ok d
      → IsWellFormed d
  unfolding apply_parts apply_known
  apply_parts-IsWellFormed none c d v e = subst IsWellFormed (ok-inj e) v
  apply_parts-IsWellFormed (some (key, value)) c d v e =
      elim (Option-cases (get (to_lowercase key) keys)) [
        | inl x ↦ subst IsWellFormed (ok-inj (sym (ap (λ o. apply_known o (trim value) c) x) ∙ e)) v
        | inr (k, x) ↦
            apply-IsWellFormed k (trim value) c d v
              (sym (ap (λ o. apply_known o (trim value) c) x) ∙ e)
      ]

  parse_line-IsWellFormed :
      (line : Str) (c d : Config) → IsWellFormed c → parse_line line c ≡ ok d → IsWellFormed d
  unfolding parse_line
  parse_line-IsWellFormed line c d v =
      if_intro (λ r. r ≡ ok d → IsWellFormed d)
        (is_empty (trim line) || starts_with (codes "#") (trim line)) _ _
        (λ skipped e. subst IsWellFormed (ok-inj e) v)
        (λ other. apply_parts-IsWellFormed (split_once is_whitespace (trim line)) c d v)

  parse_lines-IsWellFormed :
      (ls : List Str) (c d : Config) → IsWellFormed c → parse_lines ls c ≡ ok d → IsWellFormed d
  unfolding parse_lines
  parse_lines-IsWellFormed [] c d v e = subst IsWellFormed (ok-inj e) v
  parse_lines-IsWellFormed (line ∷ rest) c d v e =
      let (c', first, later) = >>=-eq-ok (parse_line line c) (parse_lines rest) e in
      parse_lines-IsWellFormed rest c' d (parse_line-IsWellFormed line c c' v first) later

  default-IsWellFormed : IsWellFormed default
  default-IsWellFormed = (
    omega arith,
    omega arith,
    omega arith,
    omega arith,
    omega arith,
    tt,
    (omega arith, (omega arith, tt)),
    tt,
    tt,
    ([], refl),
    refl,
    refl,
  )

  -- Every number and address of a configuration that the parser accepts fits its type, the CONNECT
  -- ports 443 and 563 stay listed whatever the file says, and no file sets a reverse proxy rule or an
  -- added header.
  pub parse_config-IsWellFormed :
      (content : Str) (c : Config) → parse_config content ≡ ok c → IsWellFormed c
  unfolding parse_config
  parse_config-IsWellFormed content c =
      parse_lines-IsWellFormed (lines content) default c default-IsWellFormed
