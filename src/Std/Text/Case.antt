-- ===== src/Std/Text/Case.antt =====
-- `str::to_lowercase`. On ASCII it maps each letter; on other texts it goes by the tables of Unicode,
-- with a rule for the final sigma, which are a parameter here. So is `char::is_alphanumeric` outside
-- ASCII.
pub mod Laws
use tinyproxy_rust.Prelude.{
  ℕ, ◌+◌, ◌≡◌, refl, Bool, true, ◌&&◌, ◌||◌, [], ◌∷◌, map, all, leb, if◌then◌else◌, arith,
}
use tinyproxy_rust.Std.Text.{Str, is_ascii, is_whitespace}

pub record Unicode : Type 0 where
  pub lowercase : Str → Str
  pub is_alphanumeric : ℕ → Bool

unfoldable pub ascii_lower : ℕ → ℕ
ascii_lower c = if leb b'A' c && leb c b'Z' then c + 32 else c

abbrev pub is_ascii_alphanumeric : ℕ → Bool
is_ascii_alphanumeric c =
    (leb b'0' c && leb c b'9') || (leb b'A' c && leb c b'Z') || (leb b'a' c && leb c b'z')

module _ ⦃u : Unicode⦄ where
  unfoldable pub to_lowercase : Str → Str
  unfolding ascii_lower
  to_lowercase s = if all is_ascii s then map ascii_lower s else u.lowercase s

  unfoldable pub is_alphanumeric : ℕ → Bool
  is_alphanumeric c = if is_ascii c then is_ascii_alphanumeric c else u.is_alphanumeric c
