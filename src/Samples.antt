-- ===== src/Samples.antt =====
-- Concrete values for the parameters, with which the tests run: lower case of ASCII letters only, no
-- letters outside ASCII, a decoder that knows one account, no regular expressions, one date, and URLs of one
-- host.
use tinyproxy_rust.Prelude.{
  ◌≡◌, ap, ◌∙◌, false, none, some, map, all, if◌then◌else◌, Bool-cases, inl, inr,
}
use tinyproxy_rust.Prelude.Results.{ok, err}
use tinyproxy_rust.Std.Text.{Str, codes, is_ascii, equal, starts_with}
use tinyproxy_rust.Std.Text.Case.{Unicode, ascii_lower, to_lowercase}
use tinyproxy_rust.Std.Text.Case.Laws.{
  CaseLaws, map-ascii_lower_idem, trim-map, map-ascii_lower_ne, map-ascii_lower-IsScalar,
}
use tinyproxy_rust.Std.Utf8.{encode}
use tinyproxy_rust.External.{Crates}

instance abbrev pub plain_unicode : Unicode
plain_unicode = record { lowercase = map ascii_lower; is_alphanumeric = λ c. false }

lowercase_idem : (s : Str) → to_lowercase (map ascii_lower s) ≡ map ascii_lower s
unfolding to_lowercase
lowercase_idem s = elim (Bool-cases (all is_ascii (map ascii_lower s))) [
  | inl x ↦ rw x (map-ascii_lower_idem s)
  | inr x ↦ rw x (map-ascii_lower_idem s)
]

pub plain_laws : CaseLaws
plain_laws = record {
  idem = lowercase_idem;
  trimmed = λ s h. trim-map s ∙ ap (map ascii_lower) h;
  keeps_out = map-ascii_lower_ne;
  scalar = map-ascii_lower-IsScalar;
}

-- `user:pass` in base64.
instance abbrev pub sample_crates : Crates
sample_crates = record {
  base64_decode =
      λ s. if equal s (codes "dXNlcjpwYXNz") then some (encode (codes "user:pass")) else none;
  regex_new = λ s. none;
  url_parse = λ s.
      if starts_with (codes "http://a.com/") s
      then ok (record { scheme = codes "http"; host_str = some (codes "a.com"); port = none })
      else err (codes "relative URL without a base");
  chrono_format = λ t. codes "2024-01-01 00:00:00 UTC";
}
