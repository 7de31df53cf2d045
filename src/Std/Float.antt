-- ===== src/Std/Float.antt =====
-- `f64`, for values that are not negative and stay in the normal range: a double stands for
-- `mant / 2 ^ down`. Each operation is the exact result, rounded to 53 significant bits, to the even one
-- of two that are as near.
pub mod Rounding
pub mod Laws
use tinyproxy_rust.Prelude.{
  ℕ, zero, suc, ◌+◌, ◌-◌, ◌*◌, ◌/◌, ◌%◌, ◌^◌, Bool, true, false, ◌&&◌, ◌||◌, List, [], ◌∷◌, ◌++◌,
  leb, ltb, ◌==◌, if◌then◌else◌,
}
use tinyproxy_rust.Std.Text.{Str, codes}
use tinyproxy_rust.Std.Number.{print_uint}

pub record F64 : Type 0 where
  pub mant : ℕ
  pub down : ℕ

-- The number nearest to `p / q`, the even one of two.
unfoldable pub round_even : ℕ → ℕ → ℕ
round_even p q =
    let n = p / q in
    let r = p % q in if ltb q (2 * r) || (2 * r == q && n % 2 == 1) then n + 1 else n

-- The least power `2 ^ up` by which `p / q` comes below `2 ^ 53`.
find_up : ℕ → ℕ → ℕ → ℕ → ℕ
find_up zero up p q = up
find_up (suc fuel) up p q =
    let more = find_up fuel (suc up) p (q * 2) in if ltb p (2 ^ 53 * q) then up else more

-- The least power `2 ^ down` with which `p / q` reaches `2 ^ 52`.
pub find_down : ℕ → ℕ → ℕ → ℕ → ℕ
find_down zero down p q = down
find_down (suc fuel) down p q =
    let more = find_down fuel (suc down) (p * 2) q in if leb (2 ^ 52 * q) p then down else more

-- The double, from the powers that were found.
double_of : ℕ → ℕ → ℕ → ℕ → F64
unfolding round_even
double_of p q up down =
    if p == 0
    then record { mant = 0; down = 0 }
    else if leb (2 ^ 52 * q) p
    then record { mant = round_even p (q * 2 ^ up) * 2 ^ up; down = 0 }
    else record { mant = round_even (p * 2 ^ down) q; down = down }

-- `p / q` as a double. The rounds that are given suffice for `2 ^ -64 ≤ p / q < 2 ^ 128`.
unfoldable pub of_ratio : ℕ → ℕ → F64
unfolding find_up find_down double_of
of_ratio p q = double_of p q (find_up 128 0 p q) (find_down 128 0 p q)

-- `n as f64`, and the literals of the program, which are whole numbers.
unfoldable pub of_uint : ℕ → F64
unfolding of_ratio
of_uint n = of_ratio n 1

unfoldable pub add : F64 → F64 → F64
unfolding of_ratio
add a b = of_ratio (a.mant * 2 ^ b.down + b.mant * 2 ^ a.down) (2 ^ (a.down + b.down))

unfoldable pub mul : F64 → F64 → F64
unfolding of_ratio
mul a b = of_ratio (a.mant * b.mant) (2 ^ (a.down + b.down))

-- The divisor is not 0.
unfoldable pub div : F64 → F64 → F64
unfolding of_ratio
div a b = of_ratio (a.mant * 2 ^ b.down) (b.mant * 2 ^ a.down)

-- `a >= b`.
abbrev pub ge : F64 → F64 → Bool
ge a b = leb (b.mant * 2 ^ a.down) (a.mant * 2 ^ b.down)

-- The last `d` digits of `n`, in front of `rest`.
last_digits : ℕ → ℕ → Str → Str
last_digits zero n rest = rest
last_digits (suc d) n rest = last_digits d (n / 10) ((b'0' + n % 10) ∷ rest)

-- The number of units of the digit `d` behind the point that is nearest to a double.
unfoldable pub scaled : ℕ → F64 → ℕ
unfolding round_even
scaled d a = round_even (a.mant * 10 ^ d) (2 ^ a.down)

-- `n` such units.
unfoldable pub print_scaled : ℕ → ℕ → Str
unfolding last_digits
print_scaled d n = print_uint (n / 10 ^ d) ++ (codes "." ++ last_digits d (n % 10 ^ d) [])

-- `{:.d}` for `d` above 0.
unfoldable pub print_fixed : ℕ → F64 → Str
unfolding print_scaled scaled
print_fixed d a = print_scaled d (scaled d a)
