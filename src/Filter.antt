-- ===== src/Filter.antt =====
-- src/filter.rs: the filter of request targets, and the loader of its file of rules.
pub mod Laws
pub mod Lines
pub mod Loading
mod Tests
use tinyproxy_rust.Prelude.{
  ℕ, suc, ◌+◌, length, Bool, true, false, ◌||◌, Option, none, some, List, [], ◌∷◌, ◌++◌, drop,
  is_empty, if◌then◌else◌,
}
use tinyproxy_rust.Prelude.Results.{Result, ok, err}
use tinyproxy_rust.Std.Text.{Str, codes, equal, trim, starts_with, ends_with, contains}
use tinyproxy_rust.Std.Number.{print_uint}
use tinyproxy_rust.Std.Text.Case.{Unicode, to_lowercase}
use tinyproxy_rust.Config.{Config}
use tinyproxy_rust.Error.{ProxyError, ProxyResult}
use tinyproxy_rust.External.{Url, Crates}

-- A compiled expression is the test that it makes.
pub data FilterRule : Type 0 where
  exact : Str → FilterRule
  regex : (Str → Bool) → FilterRule
  domain : Str → FilterRule

pub record Filter : Type 0 where
  pub enabled : Bool
  pub rules : List FilterRule
  pub case_sensitive : Bool
  pub extended : Bool

-- The filter file: the error of opening it, or what its reader gives, each line or the error that
-- reading it met.
abbrev pub FilterFile : Type 0
FilterFile = Result Str (List (Result Str Str))

module _ ⦃u : Unicode⦄ ⦃x : Crates⦄ where
  abbrev fold_case : Bool → Str → Str
  fold_case case_sensitive s = if case_sensitive then s else to_lowercase s

  pub host_matches : Str → Str → Bool
  host_matches pattern host =
      if starts_with (codes ".") pattern
      then ends_with pattern host || equal host (drop 1 pattern)
      else equal host pattern

  matches_url : Bool → Str → Str → Result Str Url → Bool
  unfolding host_matches
  matches_url case_sensitive pattern url (err e) = contains pattern url
  matches_url case_sensitive pattern url (ok parsed) = elim parsed.host_str [
    | none ↦ false
    | some host ↦ host_matches pattern (fold_case case_sensitive host)
  ]

  pub matches_rule : Bool → FilterRule → Str → Bool
  unfolding matches_url
  matches_rule case_sensitive (exact pattern) url = contains pattern url
  matches_rule case_sensitive (regex test) url = test url
  matches_rule case_sensitive (domain pattern) url =
      matches_url case_sensitive pattern url (x.url_parse url)

  -- The loop of `is_allowed`.
  pub blocks : Bool → List FilterRule → Str → Bool
  unfolding matches_rule
  blocks case_sensitive [] url = false
  blocks case_sensitive (r ∷ rs) url =
      let rest = blocks case_sensitive rs url in
      if matches_rule case_sensitive r url then true else rest

  unfoldable pub is_allowed : Filter → Str → ProxyResult Bool
  unfolding blocks
  is_allowed f url =
      if f.enabled
      then ok
          (if blocks f.case_sensitive f.rules (fold_case f.case_sensitive url) then false else true)
      else ok true

  -- The rule of a line that is neither empty nor a comment.
  pub rule_of_line : Filter → Str → FilterRule
  rule_of_line f line =
      let rule_text = fold_case f.case_sensitive line in
      if f.extended
      then elim (x.regex_new rule_text) [ some test ↦ regex test | none ↦ exact rule_text ]
      else if starts_with (codes ".") line
      then domain rule_text
      else exact rule_text

  pub add_line : Filter → Str → Filter
  unfolding rule_of_line
  add_line f line =
      if is_empty line || starts_with (codes "#") line
      then f
      else record f { rules = f.rules ++ rule_of_line f line ∷ [] }

  -- The loop of `load_filter_file` from the line with the number `line_num` on, counted from 0: an
  -- error ends it and leaves the rules that were read.
  pub load_lines : ℕ → Filter → List (Result Str Str) → Filter × ProxyResult (Unit {0})
  unfolding add_line
  load_lines line_num f [] = (f, ok tt)
  load_lines line_num f (ok line ∷ rest) = load_lines (suc line_num) (add_line f (trim line)) rest
  load_lines line_num f (err e ∷ rest) = (
    f,
    err (
        ProxyError.config (
          codes "Error reading filter file line "
          ++ (print_uint (line_num + 1) ++ (codes ": " ++ e)))),
  )

  pub load_filter_file : Filter → Str → FilterFile → Filter × ProxyResult (Unit {0})
  unfolding load_lines
  load_filter_file f filename (err e) = (
    f,
    err (ProxyError.config (codes "Cannot open filter file " ++ (filename ++ (codes ": " ++ e)))),
  )
  load_filter_file f filename (ok file) = load_lines 0 f file

  pub load_if_named : (Str → FilterFile) → Option Str → Filter → Filter
  unfolding load_filter_file
  load_if_named files none f = f
  load_if_named files (some name) f = (load_filter_file f name (files name)).0

  -- `files` opens a file by its name. A failed load is only a warning.
  unfoldable pub new : (Str → FilterFile) → Config → Filter
  unfolding load_if_named
  new files config =
      let f : Filter = record {
        enabled = config.filter_urls;
        rules = [];
        case_sensitive = config.filter_casesensitive;
        extended = config.filter_extended;
      } in
      if config.filter_urls then load_if_named files config.filter_file f else f

abbrev is_enabled : Filter → Bool
is_enabled f = f.enabled

unfoldable pub rule_count : Filter → ℕ
rule_count f = length f.rules
