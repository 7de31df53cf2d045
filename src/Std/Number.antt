-- ===== src/Std/Number.antt =====
-- `str::parse` for unsigned integers, and their decimal print.
pub mod RoundTrip
use tinyproxy_rust.Prelude.{
  ℕ, zero, suc, ◌+◌, ◌-◌, ◌*◌, ◌/◌, ◌%◌, ◌^◌, ◌≤◌, ◌≡◌, ◌&&◌, Option, none, some, [], ◌∷◌, leb, ltb,
  ◌==◌, if◌then◌else◌, arith,
}
use tinyproxy_rust.Std.Text.{Str}

-- `char::to_digit(10)`.
abbrev pub to_digit : ℕ → Option ℕ
to_digit c = if leb b'0' c && leb c b'9' then some (c - b'0') else none

-- The digit loop of `from_str_radix`: each step is checked against the type's largest value.
unfoldable pub parse_digits : ℕ → ℕ → Str → Option ℕ
parse_digits top acc [] = some acc
parse_digits top acc (c ∷ s) = elim (to_digit c) [
  | none ↦ none
  | some d ↦
      let next = acc * 10 + d in
      let rest = parse_digits top next s in if leb next top then rest else none
]

parse_unsigned : ℕ → Str → Option ℕ
parse_unsigned top [] = none
parse_unsigned top (c ∷ s) = parse_digits top 0 (c ∷ s)

-- One `+` may lead; the rest has at least one digit.
unfoldable pub parse_uint : ℕ → Str → Option ℕ
unfolding parse_unsigned parse_digits
parse_uint top [] = none
parse_uint top (c ∷ s) = if c == b'+' then parse_unsigned top s else parse_unsigned top (c ∷ s)

abbrev pub u8_max : ℕ
u8_max = 2 ^ 8 - 1

abbrev pub u16_max : ℕ
u16_max = 2 ^ 16 - 1

abbrev pub u64_max : ℕ
u64_max = 2 ^ 64 - 1

parse_digits-le :
    (top acc : ℕ) (s : Str) (n : ℕ) → acc ≤ top → parse_digits top acc s ≡ some n → n ≤ top
unfolding parse_digits
parse_digits-le top acc [] n h e = ground arith
parse_digits-le top acc (c ∷ s) n h e =
    ground (arith, parse_digits-le top (acc * 10 + (c - b'0')) s n)

parse_unsigned-le : (top : ℕ) (s : Str) (n : ℕ) → parse_unsigned top s ≡ some n → n ≤ top
unfolding parse_unsigned
parse_unsigned-le top [] n e = ground arith
parse_unsigned-le top (c ∷ s) n e = parse_digits-le top 0 (c ∷ s) n (omega arith) e

-- A parsed number fits its type.
pub parse_uint-le : (top : ℕ) (s : Str) (n : ℕ) → parse_uint top s ≡ some n → n ≤ top
unfolding parse_uint
parse_uint-le top [] n e = ground arith
parse_uint-le top (c ∷ s) n e =
    ground (arith, parse_unsigned-le top s n, parse_unsigned-le top (c ∷ s) n)

-- The decimal digits of `n`, in front of `rest`; one round a digit.
print_digits : ℕ → ℕ → Str → Str
print_digits zero n rest = rest
print_digits (suc fuel) n rest =
    let digit = b'0' + n % 10 in
    let more = print_digits fuel (n / 10) (digit ∷ rest) in if ltb n 10 then digit ∷ rest else more

-- `n + 1` rounds are enough, since `n / 10 < n` while a digit is left.
unfoldable pub print_uint : ℕ → Str
unfolding print_digits
print_uint n = print_digits (suc n) n []
