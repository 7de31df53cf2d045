-- ===== src/Http/Names.antt =====
-- src/utils.rs: host names and header values.
pub mod Sanitize
pub mod Hostnames
mod Tests
use tinyproxy_rust.Prelude.{
  ℕ, Bool, true, false, not, ◌&&◌, ◌||◌, List, [], ◌∷◌, is_empty, all, ltb, ◌==◌, if◌then◌else◌,
}
use tinyproxy_rust.Std.Text.{Str, codes, byte_len, split, starts_with, ends_with, is_ascii}
use tinyproxy_rust.Std.Text.Case.{Unicode, is_alphanumeric}

-- `char::is_control` on ASCII.
abbrev pub is_ascii_control : ℕ → Bool
is_ascii_control c = ltb c 0x20 || c == 0x7F

unfoldable pub sanitize_header_value : Str → Str
sanitize_header_value [] = []
sanitize_header_value (c ∷ s) =
    let rest = sanitize_header_value s in
    if is_ascii c && not (is_ascii_control c) then c ∷ rest else rest

module _ ⦃u : Unicode⦄ where
  valid_part : Str → Bool
  valid_part part =
      if is_empty part || ltb 63 (byte_len part)
      then false
      else if not (all (λ c. is_alphanumeric c || c == b'-') part)
      then false
      else if starts_with (codes "-") part || ends_with (codes "-") part
      then false
      else true

  -- The loop over the parts: the first bad one returns.
  valid_parts : List Str → Bool
  unfolding valid_part
  valid_parts [] = true
  valid_parts (part ∷ parts) = if valid_part part then valid_parts parts else false

  unfoldable pub is_valid_hostname : Str → Bool
  unfolding valid_parts
  is_valid_hostname hostname =
      if is_empty hostname || ltb 253 (byte_len hostname)
      then false
      else valid_parts (split (λ c. c == b'.') hostname)
