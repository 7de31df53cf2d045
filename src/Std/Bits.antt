-- ===== src/Std/Bits.antt =====
-- Unsigned words of `w` bits: complement, shift, and what a mask of leading ones leaves of a number.
use Prim.Native.Nat.{min, digits, bit_and-bitwise}
use native.Mathlib.Nat.{mod-eq_of_lt, pow-le-pow_right, pow-suc, div-div-eq-div-mul, mul-div_cancel}
use tinyproxy_rust.Prelude.{
  ℕ, zero, suc, ◌+◌, ◌-◌, ◌*◌, ◌/◌, ◌%◌, ◌^◌, ◌≤◌, ◌<◌, bit_and, ◌≡◌, ◌↔◌, refl, ap, sym, ◌∙◌,
  arith,
}

-- `!x`, `x << k` with overflow checks off, and `a - b` on `u8`.
abbrev pub bit_not : ℕ → ℕ → ℕ
bit_not w x = 2 ^ w - 1 - x

abbrev pub shl : ℕ → ℕ → ℕ → ℕ
shl w x k = x * 2 ^ (k % w) % 2 ^ w

abbrev pub sub_u8 : ℕ → ℕ → ℕ
sub_u8 a b = (a + 256 - b) % 256

-- The native `bit_and` runs over the digits of its first argument; any bound on it is fuel.
abbrev meet : ℕ → ℕ → ℕ → ℕ
meet fuel a b = digits (λ _. zero) min fuel a b

meet-eq : (f g a b : ℕ) → a ≤ f → a ≤ g → meet f a b ≡ meet g a b
meet-eq f g zero b p q = meet_zero f ∙ sym (meet_zero g)
  where
    meet_zero : (n : ℕ) → meet n 0 b ≡ 0
    meet_zero zero = refl
    meet_zero (suc n) = refl
meet-eq zero g (suc a) b p q = absurd (omega arith)
meet-eq (suc f) zero (suc a) b p q = absurd (omega arith)
meet-eq (suc f) (suc g) (suc a) b p q =
    ap (λ r. r * 2 + min (suc a % 2) (b % 2))
      (meet-eq f g (suc a / 2) (b / 2) (omega arith) (omega arith))

bit_and-meet : (fuel a b : ℕ) → a ≤ fuel → bit_and a b ≡ meet fuel a b
bit_and-meet fuel a b h = bit_and-bitwise a b ∙ meet-eq a fuel a b (omega arith) h

bit_and-halves : (a b : ℕ) → bit_and a b ≡ bit_and (a / 2) (b / 2) * 2 + min (a % 2) (b % 2)
bit_and-halves zero b = omega (arith, bit_and-meet 0 0 b, bit_and-meet 0 0 (b / 2))
bit_and-halves (suc n) b =
    bit_and-bitwise (suc n) b
    ∙ ap (λ r. r * 2 + min (suc n % 2) (b % 2))
        (sym (bit_and-meet n (suc n / 2) (b / 2) (omega arith)))

-- A word of `w` bits whose last `k` are 0 and the others 1.
ones : ℕ → ℕ → ℕ
ones zero k = 0
ones (suc w) zero = ones w zero * 2 + 1
ones (suc w) (suc k) = ones w k * 2

-- `a` with its last `k` bits cleared.
clear : ℕ → ℕ → ℕ
clear zero a = a
clear (suc k) a = clear k (a / 2) * 2

pub pow_pos : (k : ℕ) → 0 < 2 ^ k
pow_pos zero = omega arith
pow_pos (suc k) = omega (arith, pow-suc 2 k, pow_pos k)

ones-eq : (w k : ℕ) → k ≤ w → ones w k + 2 ^ k ≡ 2 ^ w
unfolding ones
ones-eq zero zero h = refl
ones-eq zero (suc k) h = absurd (omega arith)
ones-eq (suc w) zero h = omega (arith, ones-eq w 0 (omega arith), pow-suc 2 w)
ones-eq (suc w) (suc k) h = omega (arith, ones-eq w k (omega arith), pow-suc 2 w, pow-suc 2 k)

-- One digit of each argument.
bit_and-digit : (a m d : ℕ) → d < 2 → bit_and a (m * 2 + d) ≡ bit_and (a / 2) m * 2 + min (a % 2) d
bit_and-digit a m d h =
    let e : (m * 2 + d) / 2 ≡ m = omega arith in
    let r : (m * 2 + d) % 2 ≡ d = omega arith in rw (bit_and-halves a (m * 2 + d), e, r)

bit_and-ones : (w k a : ℕ) → a < 2 ^ w → k ≤ w → bit_and a (ones w k) ≡ clear k a
unfolding ones clear
bit_and-ones zero zero a h p = let e : a ≡ 0 = omega arith in rw (e, bit_and-bitwise 0 0)
bit_and-ones zero (suc k) a h p = absurd (omega arith)
bit_and-ones (suc w) zero a h p =
    bit_and-digit a (ones w 0) 1 (omega arith)
    ∙ omega (arith, bit_and-ones w 0 (a / 2) (omega (arith, pow-suc 2 w)) (omega arith))
bit_and-ones (suc w) (suc k) a h p =
    ap (bit_and a) (omega arith)
    ∙ bit_and-digit a (ones w k) 0 (omega arith)
    ∙ omega (arith, bit_and-ones w k (a / 2) (omega (arith, pow-suc 2 w)) (omega arith))

clear-eq : (k a : ℕ) → clear k a ≡ a / 2 ^ k * 2 ^ k
unfolding clear
clear-eq zero a = omega arith
clear-eq (suc k) a =
    let e : 2 ^ suc k ≡ 2 * 2 ^ k = omega (arith, pow-suc 2 k) in
    rw (clear-eq k (a / 2), e, ← div-div-eq-div-mul a 2 (2 ^ k)) (grind arith)

scale-inj : (x y p : ℕ) → 0 < p → x * p ≡ y * p → x ≡ y
scale-inj x y p h e = sym (mul-div_cancel x h) ∙ ap (λ t. t / p) e ∙ mul-div_cancel y h

-- With the mask `!(2^k - 1)` two words agree exactly when they agree above the last `k` bits.
pub masked_eq_iff :
    (w k a b : ℕ)
    → a < 2 ^ w
    → b < 2 ^ w
    → k ≤ w
    → (bit_and a (bit_not w (2 ^ k - 1)) ≡ bit_and b (bit_not w (2 ^ k - 1)))
      ↔ (a / 2 ^ k ≡ b / 2 ^ k)
masked_eq_iff w k a b ha hb h =
    let e : bit_not w (2 ^ k - 1) ≡ ones w k = omega (arith, ones-eq w k, pow_pos k) in
    rw (e, bit_and-ones w k a ha h, bit_and-ones w k b hb h, clear-eq k a, clear-eq k b)
      (scale-inj _ _ (2 ^ k) (pow_pos k), ap (λ t. t * 2 ^ k))

-- A 1 that stays in the word is not wrapped around.
pub shl-one : (w k : ℕ) → k < w → shl w 1 k ≡ 2 ^ k
shl-one w k h =
    let fits : 2 ^ suc k ≤ 2 ^ w = pow-le-pow_right (omega arith) h in
    let less : 1 * 2 ^ k < 2 ^ w = omega (arith, pow-suc 2 k, pow_pos k) in
    rw (mod-eq_of_lt h, mod-eq_of_lt less) (omega arith)
