-- ===== src/Filter/Tests.antt =====
-- An example for src/filter.rs.
use tinyproxy_rust.Prelude.{◌≡◌, ◌↔◌, refl, true, false, none, some, List, [], ◌∷◌, Some}
use tinyproxy_rust.Std.Text.{Str, codes, trim, starts_with, ends_with, is_whitespace}
use tinyproxy_rust.Std.Text.Case.{to_lowercase}
use tinyproxy_rust.Samples.{plain_unicode, sample_crates}
use tinyproxy_rust.External.{Url}
use tinyproxy_rust.Config.{Config, default}
use tinyproxy_rust.Prelude.Results.{Result, ok, err}
use tinyproxy_rust.Filter.{Filter, matches_rule, domain, new, is_allowed}
use tinyproxy_rust.Filter.Loading.{kept, new-is_allowed_iff}
use tinyproxy_rust.Filter.Laws.{InTarget, matches_rule-domain_iff}
use tinyproxy_rust.Filter.Lines.{Blocks}

abbrev parsed : Url
parsed = record { scheme = codes "http"; host_str = some (codes "a.com"); port = none }

matches_rule-domain_iff_example :
    (matches_rule false (domain (codes ".com")) (codes "http://a.com/") ≡ true)
    ↔ InTarget false (codes ".com") (codes "http://a.com/")
matches_rule-domain_iff_example =
    matches_rule-domain_iff false (codes ".com") (codes "http://a.com/")

-- A rule, a comment, and a line that cannot be read.
abbrev rules_file : List (Result Str Str)
rules_file = ok (codes " .COM ") ∷ ok (codes "# all") ∷ err (codes "invalid UTF-8") ∷ []

abbrev filtering : Config
filtering = record default { filter_urls = true; filter_file = some (codes "rules") }

abbrev blocking : Filter
blocking = new (λ name. ok rules_file) filtering

new-is_allowed_iff_example :
    (is_allowed blocking (codes "http://A.com/") ≡ ok false)
    ↔ Some (Blocks filtering (codes "http://A.com/")) (kept rules_file)
new-is_allowed_iff_example =
    new-is_allowed_iff (λ name. ok rules_file) filtering (codes "rules") rules_file
      (codes "http://A.com/") refl refl refl

blocked : is_allowed blocking (codes "http://A.com/") ≡ ok false
unfolding is_allowed new to_lowercase trim starts_with ends_with is_whitespace
blocked = refl
