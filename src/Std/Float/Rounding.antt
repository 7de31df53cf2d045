-- ===== src/Std/Float/Rounding.antt =====
-- Powers of two, and how far the rounding of Std/Float.antt goes.
use native.Mathlib.Nat.{
  mul_comm, le_of_mul-le-mul_right, pow-suc, pow-succ', mul_assoc, mul-le-mul_right,
  le_of_mul-le-mul_right, mul-div_cancel, mul-mod_left, div-add-mod', mod-lt,
}
use tinyproxy_rust.Prelude.{
  ℕ, zero, suc, ◌+◌, ◌*◌, ◌/◌, ◌%◌, ◌^◌, ◌<◌, ◌≤◌, ◌≡◌, ap, sym, ◌∙◌, Bool-cases, if_intro, subst,
  leb→le, ◌||◌, ◌&&◌, inl, inr, true, false, ltb, leb, ◌==◌, arith,
}
use tinyproxy_rust.Std.Float.{round_even, find_down}

pub pow_pos : (k : ℕ) → 0 < 2 ^ k
pow_pos zero = omega arith
pow_pos (suc k) = omega (arith, pow_pos k, pow-suc 2 k)

pub pow-add : (i j : ℕ) → 2 ^ (i + j) ≡ 2 ^ i * 2 ^ j
pow-add i zero = grind arith
pow-add i (suc j) =
    let here = pow-add i j in
    let a = pow-suc 2 (i + j) in
    let b = pow-suc 2 j in
    let c : 2 ^ (i + suc j) ≡ 2 ^ suc (i + j) = ap (λ k. 2 ^ k) (omega arith) in
    c ∙ a ∙ ap (λ k. k * 2) here ∙ mul_assoc (2 ^ i) (2 ^ j) 2 ∙ ap (λ k. 2 ^ i * k) (sym b)

pub round_even-mul : (k q : ℕ) → 0 < q → round_even (k * q) q ≡ k
unfolding round_even
round_even-mul k q h = rw (mul-div_cancel k h, mul-mod_left k q) (ground arith)

half_up : (n r q : ℕ) → (ltb q (2 * r) || (2 * r == q && n % 2 == 1)) ≡ true → q ≤ 2 * r
half_up n r q h = ground arith

half_down : (n r q : ℕ) → (ltb q (2 * r) || (2 * r == q && n % 2 == 1)) ≡ false → 2 * r ≤ q
half_down n r q h = ground arith

-- The rounded quotient is at most half away.
pub round_even_near :
    (p q : ℕ)
    → 0 < q
    → (2 * (round_even p q * q) ≤ 2 * p + q) × (2 * p ≤ 2 * (round_even p q * q) + q)
unfolding round_even
round_even_near p q h =
    let whole = div-add-mod' p q in
    let small : p % q < q = mod-lt p h in
    let up : (p / q + 1) * q ≡ p / q * q + q = grind arith in
    if_intro (λ n. (2 * (n * q) ≤ 2 * p + q) × (2 * p ≤ 2 * (n * q) + q))
      (ltb q (2 * (p % q)) || (2 * (p % q) == q && p / q % 2 == 1)) (p / q + 1) (p / q)
      (λ b.
        let bound = half_up (p / q) (p % q) q b in
        (omega (arith, whole, up, bound), omega (arith, whole, up, small)))
      (λ b.
        let bound = half_down (p / q) (p % q) q b in
        (omega (arith, whole, bound), omega (arith, whole, bound)))

pub find_down-le :
    (fuel down p q : ℕ)
    → 2 ^ 52 * q ≤ p * 2 ^ fuel
    → (t : ℕ) × (find_down fuel down p q ≡ down + t) × (2 ^ 52 * q ≤ p * 2 ^ t)
unfolding find_down
find_down-le zero down p q h = (0, omega arith, h)
find_down-le (suc fuel) down p q h = elim (Bool-cases (leb (2 ^ 52 * q) p)) [
  | inl x ↦ (0, ground (arith, x), omega (arith, leb→le (2 ^ 52 * q) p x))
  | inr x ↦
      let (t, e, b) = find_down-le fuel (suc down) (p * 2) q (
        subst (λ k. 2 ^ 52 * q ≤ k)
          (ap (λ k. p * k) (pow-succ' 2 fuel) ∙ sym (mul_assoc p 2 (2 ^ fuel))) h) in
      (
        suc t,
        ground (arith, x, e),
        subst (λ k. 2 ^ 52 * q ≤ k) (mul_assoc p 2 (2 ^ t) ∙ ap (λ k. p * k) (sym (pow-succ' 2 t)))
            b,
      )
]

-- The same distance at another denominator.
pub rescale :
    (s f x m g q : ℕ)
    → 1 ≤ q
    → f * g ≡ m * q
    → 2 * (s * q) ≤ 2 * (f * x) + q
    → 2 * (f * x) ≤ 2 * (s * q) + q
    → (2 * (s * g) ≤ 2 * (m * x) + g) × (2 * (m * x) ≤ 2 * (s * g) + g)
rescale s f x m g q some e above below =
    let left : 2 * (s * q) * g ≡ 2 * (s * g) * q = grind arith in
    let left_q : (2 * (s * q) + q) * g ≡ (2 * (s * g) + g) * q = grind arith in
    let right : 2 * (f * x) * g ≡ 2 * (m * x) * q =
      twice f x g ∙ ap (λ t. 2 * (x * t)) e ∙ sym (twice m x q) in
    let right_q : (2 * (f * x) + q) * g ≡ (2 * (m * x) + g) * q =
      spread f x q g
      ∙ ap (λ t. 2 * (x * t) + q * g) e
      ∙ ap (λ t. 2 * (x * (m * q)) + t) (mul_comm q g)
      ∙ sym (spread m x g q) in
    let above_g : 2 * (s * q) * g ≤ (2 * (f * x) + q) * g = mul-le-mul_right g above in
    let below_g : 2 * (f * x) * g ≤ (2 * (s * q) + q) * g = mul-le-mul_right g below in
    let above_q : 2 * (s * g) * q ≤ (2 * (m * x) + g) * q =
      subst (λ t. t ≤ (2 * (m * x) + g) * q) left
        (subst (λ t. 2 * (s * q) * g ≤ t) right_q above_g) in
    let below_q : 2 * (m * x) * q ≤ (2 * (s * g) + g) * q =
      subst (λ t. t ≤ (2 * (s * g) + g) * q) right
        (subst (λ t. 2 * (f * x) * g ≤ t) left_q below_g) in
    (le_of_mul-le-mul_right above_q some, le_of_mul-le-mul_right below_q some)
  where
    twice : (a b c : ℕ) → 2 * (a * b) * c ≡ 2 * (b * (a * c))
    twice a b c = grind arith

    spread : (a b c d : ℕ) → (2 * (a * b) + c) * d ≡ 2 * (b * (a * d)) + c * d
    spread a b c d = grind arith
