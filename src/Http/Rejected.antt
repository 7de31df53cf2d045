-- ===== src/Http/Rejected.antt =====
-- Which heads `parse_http_request` of src/utils.rs rejects.
use tinyproxy_rust.Prelude.{◌≡◌, ◌↔◌, refl, ap, ◌∙◌, List, [], ◌∷◌}
use tinyproxy_rust.Prelude.Results.{ok}
use tinyproxy_rust.Std.Text.{Str, split_whitespace}
use tinyproxy_rust.Std.Text.Lines.{lines}
use tinyproxy_rust.Std.Text.Case.{Unicode}
use tinyproxy_rust.Std.Utf8.{Bytes, from_utf8_lossy}
use tinyproxy_rust.Http.{HttpRequest, parse_parts, parse_lines, parse_http_request}

-- The first of the lines has three words.
abbrev pub HasRequestLine : List Str → Type 0
HasRequestLine ls =
    (first method uri version : Str) × (rest : List Str) × (ls ≡ first ∷ rest)
    × (split_whitespace first ≡ method ∷ uri ∷ version ∷ [])

module _ ⦃u : Unicode⦄ where
  parse_parts-words :
      (words rest : List Str) (r : HttpRequest)
      → parse_parts words rest ≡ ok r
      → (m v w : Str) × (words ≡ m ∷ v ∷ w ∷ [])
  unfolding parse_parts
  parse_parts-words [] rest r e = cc
  parse_parts-words (a ∷ []) rest r e = cc
  parse_parts-words (a ∷ b ∷ []) rest r e = cc
  parse_parts-words (a ∷ b ∷ c ∷ []) rest r e = (a, b, c, refl)
  parse_parts-words (a ∷ b ∷ c ∷ d ∷ more) rest r e = cc

  parse_lines-HasRequestLine :
      (ls : List Str) (r : HttpRequest) → parse_lines ls ≡ ok r → HasRequestLine ls
  unfolding parse_lines
  parse_lines-HasRequestLine [] r e = cc
  parse_lines-HasRequestLine (first ∷ rest) r e =
      let (m, v, w, words) = parse_parts-words (split_whitespace first) rest r e in
      (first, m, v, w, rest, refl, words)

  HasRequestLine-parse_lines :
      (ls : List Str) → HasRequestLine ls → (r : HttpRequest) × (parse_lines ls ≡ ok r)
  unfolding parse_lines parse_parts
  HasRequestLine-parse_lines ls (first, m, v, w, rest, e, words) =
      (_, ap parse_lines e ∙ ap (λ ws. parse_parts ws rest) words)

  -- A head is accepted exactly when, with what is not UTF-8 replaced, it has a first line and that has
  -- three words.
  pub parse_http_request_iff :
      (head : Bytes)
      → ((r : HttpRequest) × (parse_http_request head ≡ ok r))
        ↔ HasRequestLine (lines (from_utf8_lossy head))
  unfolding parse_http_request
  parse_http_request_iff head = (
    (λ (r, e). parse_lines-HasRequestLine (lines (from_utf8_lossy head)) r e),
    HasRequestLine-parse_lines (lines (from_utf8_lossy head)),
  )
