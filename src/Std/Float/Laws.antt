-- ===== src/Std/Float/Laws.antt =====
-- When the doubles of Std/Float.antt are exact.
use native.Mathlib.Nat.{
  mul-le-mul, lt_of_mul-lt-mul_right, le_of_mul-le-mul_right, pow-suc, pow-succ', mul_assoc,
  mul-le-mul_left, mul-le-mul_right, le_of_mul-le-mul_right, mul-lt-mul_of_pos_right,
  pow-le-pow_right,
}
use tinyproxy_rust.Prelude.{
  ℕ, zero, suc, ◌+◌, ◌-◌, ◌*◌, ◌^◌, ◌<◌, ◌≤◌, ◌≡◌, refl, ap, sym, ◌∙◌, Bool-cases, if_intro, subst,
  leb→le, lt→ltb, inl, inr, true, false, ◌⊎◌, ltb, leb, ◌==◌, if◌then◌else◌, arith,
}
use tinyproxy_rust.Std.Float.{
  F64, round_even, find_up, find_down, double_of, of_ratio, of_uint, div, ge, scaled,
}
use tinyproxy_rust.Std.Float.Rounding.{
  pow_pos, pow-add, round_even-mul, round_even_near, find_down-le, rescale,
}

-- `a` is `m / 2 ^ j`.
abbrev pub IsValue : F64 → ℕ → ℕ → Type 0
IsValue a m j = a.mant * 2 ^ j ≡ m * 2 ^ a.down

small_power : (j : ℕ) → 2 ^ j < 2 → j ≡ 0
small_power zero h = refl
small_power (suc j) h = absurd (omega (arith, pow-suc 2 j, pow_pos j))

positive_or_zero : (n : ℕ) → (1 ≤ n) ⊎ (n ≡ 0)
positive_or_zero zero = inr refl
positive_or_zero (suc n) = inl (omega arith)

le_of_powers : (j d : ℕ) → 2 ^ j < 2 * 2 ^ d → j ≤ d
le_of_powers j d h = elim (Bool-cases (leb j d)) [
  | inl x ↦ leb→le j d x
  | inr x ↦
      let more : suc d ≤ j = ground (arith, x) in
      let grows : 2 ^ suc d ≤ 2 ^ j = pow-le-pow_right (omega arith) more in
      absurd (omega (arith, grows, pow-succ' 2 d))
]

module _ (p q m j : ℕ) (pos : 0 < q) (fits : m < 2 ^ 53) (eq : p * 2 ^ j ≡ m * q) where
  -- Both sides times the same power.
  scaled_bound : (d : ℕ) → 2 ^ 52 * q ≤ p * 2 ^ d → 2 ^ j < 2 * 2 ^ d
  scaled_bound d h =
      let more : 2 ^ 52 * q * 2 ^ j ≤ p * 2 ^ d * 2 ^ j = mul-le-mul_right (2 ^ j) h in
      let moved : p * 2 ^ d * 2 ^ j ≡ p * 2 ^ j * 2 ^ d = grind arith in
      let split : p * 2 ^ j * 2 ^ d ≡ m * 2 ^ d * q = rw eq (grind arith) in
      let less : m * 2 ^ d < 2 ^ 53 * 2 ^ d = mul-lt-mul_of_pos_right fits (pow_pos d) in
      let less_q : m * 2 ^ d * q < 2 ^ 53 * 2 ^ d * q = mul-lt-mul_of_pos_right less pos in
      let order : 2 ^ 52 * q * 2 ^ j ≡ 2 ^ 52 * 2 ^ j * q = grind arith in
      let all : 2 ^ 52 * 2 ^ j * q < 2 ^ 53 * 2 ^ d * q =
        omega (arith, more, moved, split, less_q, order) in
      let bare : 2 ^ 52 * 2 ^ j < 2 ^ 53 * 2 ^ d = lt_of_mul-lt-mul_right q all in
      omega (arith, bare)

  big-exact : 2 ^ 52 * q ≤ p → (j ≡ 0) × (p ≡ m * q)
  big-exact h =
      let none : j ≡ 0 = small_power j (scaled_bound 0 (omega arith)) in
      (
        none,
        (let e0 : p * 2 ^ 0 ≡ m * q = subst (λ k. p * 2 ^ k ≡ m * q) none eq in omega (arith, e0)),
      )

  small-exact :
      (d : ℕ) → 2 ^ 52 * q ≤ p * 2 ^ d → (e : ℕ) × (d ≡ j + e) × (p * 2 ^ d ≡ m * 2 ^ e * q)
  small-exact d h =
      let le : j ≤ d = le_of_powers j d (scaled_bound d h) in
      let sum : d ≡ j + (d - j) = omega (arith, le) in
      let power : 2 ^ d ≡ 2 ^ j * 2 ^ (d - j) = ap (λ k. 2 ^ k) sum ∙ pow-add j (d - j) in
      let product : p * 2 ^ d ≡ p * 2 ^ j * 2 ^ (d - j) =
        ap (λ k. p * k) power ∙ sym (mul_assoc p (2 ^ j) (2 ^ (d - j))) in
      (d - j, sum, product ∙ ap (λ k. k * 2 ^ (d - j)) eq ∙ grind arith)

  positive_factor : 0 < p → 1 ≤ m
  positive_factor some = elim (positive_or_zero m) [
    | inl h ↦ h
    | inr z ↦
        let one : 1 * 1 ≤ p * 2 ^ j = mul-le-mul some (pow_pos j) in
        let nothing : p * 2 ^ j ≡ 0 * q = eq ∙ ap (λ k. k * q) z in
        absurd (omega (arith, one, nothing))
  ]

  -- The rounds of the search suffice.
  enough : j ≤ 76 → 0 < p → 2 ^ 52 * q ≤ p * 2 ^ 128
  enough small some =
      let power : 2 ^ j ≤ 2 ^ 76 = pow-le-pow_right (omega arith) small in
      let more : p * 2 ^ j ≤ p * 2 ^ 76 = mul-le-mul_left p power in
      let some_q : 1 * q ≤ m * q = mul-le-mul_right q (positive_factor some) in
      omega (arith, more, some_q, eq)

  find_up-zero : 2 ^ 52 * q ≤ p → find_up 128 0 p q ≡ 0
  unfolding find_up
  find_up-zero h =
      let whole : p ≡ m * q = (big-exact h).1 in
      let less : m * q < 2 ^ 53 * q = mul-lt-mul_of_pos_right fits pos in
      let test : ltb p (2 ^ 53 * q) ≡ true = lt→ltb p (2 ^ 53 * q) (omega (arith, whole, less)) in
      ap (λ b. if b then 0 else find_up 127 1 p (q * 2)) test

  found_down : j ≤ 76 → 0 < p → 2 ^ 52 * q ≤ p * 2 ^ find_down 128 0 p q
  found_down small some =
      let (t, e, b) = find_down-le 128 0 p q (enough small some) in
      let same : t ≡ find_down 128 0 p q = omega (arith, e) in
      subst (λ d. 2 ^ 52 * q ≤ p * 2 ^ d) same b

  zero_case : p ≡ 0 → 0 * 2 ^ j ≡ m * 1
  zero_case z = elim (positive_or_zero m) [
    | inl h ↦
        let some : 1 * q ≤ m * q = mul-le-mul_right q h in
        let nothing : 0 * 2 ^ j ≡ m * q = sym (ap (λ k. k * 2 ^ j) z) ∙ eq in
        absurd (omega (arith, some, nothing))
    | inr h ↦ omega (arith, h)
  ]

  big_case : (up : ℕ) → up ≡ 0 → 2 ^ 52 * q ≤ p → round_even p (q * 2 ^ up) * 2 ^ up * 2 ^ j ≡ m * 1
  big_case up u h =
      let (none, whole) = big-exact h in
      let quotient : round_even p (q * 2 ^ up) ≡ m =
        ap (λ k. round_even p (q * 2 ^ k)) u
        ∙ ap (round_even p) (omega arith)
        ∙ ap (λ k. round_even k q) whole
        ∙ round_even-mul m q pos in
      ap (λ k. k * 2 ^ up * 2 ^ j) quotient
      ∙ ap (λ k. m * 2 ^ k * 2 ^ j) u
      ∙ ap (λ k. m * 2 ^ 0 * 2 ^ k) none
      ∙ omega arith

  small_case : (d : ℕ) → 2 ^ 52 * q ≤ p * 2 ^ d → round_even (p * 2 ^ d) q * 2 ^ j ≡ m * 2 ^ d
  small_case d h =
      let (e, sum, product) = small-exact d h in
      let quotient : round_even (p * 2 ^ d) q ≡ m * 2 ^ e =
        ap (λ k. round_even k q) product ∙ round_even-mul (m * 2 ^ e) q pos in
      ap (λ k. k * 2 ^ j) quotient
      ∙ mul_assoc m (2 ^ e) (2 ^ j)
      ∙ ap (λ k. m * k) (sym (pow-add e j))
      ∙ ap (λ k. m * 2 ^ k) (omega (arith, sum))

  double_of-IsValue :
      (up down : ℕ)
      → (2 ^ 52 * q ≤ p → up ≡ 0)
      → (0 < p → 2 ^ 52 * q ≤ p * 2 ^ down)
      → IsValue (double_of p q up down) m j
  unfolding double_of
  double_of-IsValue up down none reached =
      if_intro (λ a. IsValue a m j) (p == 0) _ _ (λ x. zero_case (ground (arith, x)))
        (λ x.
          if_intro (λ a. IsValue a m j) (leb (2 ^ 52 * q) p) _ _
            (λ y. let h = leb→le (2 ^ 52 * q) p y in big_case up (none h) h)
            (λ y. small_case down (reached (ground (arith, x)))))

  -- A quotient that is `m / 2 ^ j` is not rounded.
  pub of_ratio-IsValue : j ≤ 76 → IsValue (of_ratio p q) m j
  unfolding of_ratio
  of_ratio-IsValue small = double_of-IsValue _ _ find_up-zero (found_down small)

pub of_uint-IsValue : (n : ℕ) → n < 2 ^ 53 → IsValue (of_uint n) n 0
unfolding of_uint
of_uint-IsValue n h = of_ratio-IsValue n 1 n 0 (omega arith) h (omega arith) (omega arith)

module _ (a : F64) (m j : ℕ) (v : IsValue a m j) where
  -- A division by a power of two that fits is exact.
  pub div-IsValue :
      (b : F64) (k : ℕ)
      → IsValue b (2 ^ k) 0
      → m < 2 ^ 53
      → j + k ≤ 76
      → IsValue (div a b) m (j + k)
  unfolding div
  div-IsValue b k w fits small =
      let bare : b.mant ≡ 2 ^ k * 2 ^ b.down = omega (arith, w) in
      let some_k : 1 ≤ 2 ^ k * 2 ^ b.down = mul-le-mul (pow_pos k) (pow_pos b.down) in
      let some : 1 * 1 ≤ b.mant * 2 ^ a.down =
        mul-le-mul {n₁ = 1} (omega (arith, some_k, bare)) (pow_pos a.down) in
      of_ratio-IsValue (a.mant * 2 ^ b.down) (b.mant * 2 ^ a.down) m (j + k) (omega (arith, some))
        fits
        (ap (λ t. a.mant * 2 ^ b.down * t) (pow-add j k)
          ∙ regroup a.mant (2 ^ b.down) (2 ^ j) (2 ^ k)
          ∙ ap (λ t. t * (2 ^ k * 2 ^ b.down)) v
          ∙ ap (λ t. m * 2 ^ a.down * t) (sym bare)
          ∙ swap m (2 ^ a.down) b.mant)
        small
    where
      regroup : (x y s t : ℕ) → x * y * (s * t) ≡ x * s * (t * y)
      regroup x y s t = grind arith

      swap : (x y s : ℕ) → x * y * s ≡ x * (s * y)
      swap x y s = grind arith

  -- Products in the order in which they are compared.
  times_j :
      (b : F64) (k : ℕ)
      → IsValue b (2 ^ k) 0
      → b.mant * 2 ^ a.down * 2 ^ j ≡ 2 ^ k * 2 ^ j * (2 ^ a.down * 2 ^ b.down)
  times_j b k w =
      let bare : b.mant ≡ 2 ^ k * 2 ^ b.down = omega (arith, w) in
      ap (λ t. t * 2 ^ a.down * 2 ^ j) bare ∙ order (2 ^ k) (2 ^ b.down) (2 ^ a.down) (2 ^ j)
    where
      order : (x y s t : ℕ) → x * y * s * t ≡ x * t * (s * y)
      order x y s t = grind arith

  own_j : (b : F64) → a.mant * 2 ^ b.down * 2 ^ j ≡ m * (2 ^ a.down * 2 ^ b.down)
  own_j b =
      swap a.mant (2 ^ b.down) (2 ^ j)
      ∙ ap (λ t. t * 2 ^ b.down) v
      ∙ mul_assoc m (2 ^ a.down) (2 ^ b.down)
    where
      swap : (x y s : ℕ) → x * y * s ≡ x * s * y
      swap x y s = grind arith

  -- A comparison with a power of two.
  pub ge-le : (b : F64) (k : ℕ) → IsValue b (2 ^ k) 0 → ge a b ≡ true → 2 ^ k * 2 ^ j ≤ m
  ge-le b k w e =
      let le : b.mant * 2 ^ a.down ≤ a.mant * 2 ^ b.down = leb→le _ _ e in
      let more : b.mant * 2 ^ a.down * 2 ^ j ≤ a.mant * 2 ^ b.down * 2 ^ j =
        mul-le-mul_right (2 ^ j) le in
      let some : 1 ≤ 2 ^ a.down * 2 ^ b.down =
        mul-le-mul {n₁ = 1} (pow_pos a.down) (pow_pos b.down) in
      let all : 2 ^ k * 2 ^ j * (2 ^ a.down * 2 ^ b.down) ≤ m * (2 ^ a.down * 2 ^ b.down) =
        omega (arith, more, times_j b k w, own_j b) in
      le_of_mul-le-mul_right all some

  pub not-ge-lt : (b : F64) (k : ℕ) → IsValue b (2 ^ k) 0 → ge a b ≡ false → m < 2 ^ k * 2 ^ j
  not-ge-lt b k w e =
      let lt : a.mant * 2 ^ b.down < b.mant * 2 ^ a.down = ground (arith, e) in
      let more : a.mant * 2 ^ b.down * 2 ^ j < b.mant * 2 ^ a.down * 2 ^ j =
        mul-lt-mul_of_pos_right lt (pow_pos j) in
      let all : m * (2 ^ a.down * 2 ^ b.down) < 2 ^ k * 2 ^ j * (2 ^ a.down * 2 ^ b.down) =
        omega (arith, more, times_j b k w, own_j b) in
      lt_of_mul-lt-mul_right _ all

  -- The digits that are printed are at most half a unit away.
  pub scaled_near :
      (d : ℕ)
      → (2 * (scaled d a * 2 ^ j) ≤ 2 * (m * 10 ^ d) + 2 ^ j)
        × (2 * (m * 10 ^ d) ≤ 2 * (scaled d a * 2 ^ j) + 2 ^ j)
  unfolding scaled
  scaled_near d =
      let (above, below) = round_even_near (a.mant * 10 ^ d) (2 ^ a.down) (pow_pos a.down) in
      rescale (round_even (a.mant * 10 ^ d) (2 ^ a.down)) a.mant (10 ^ d) m (2 ^ j) (2 ^ a.down)
        (pow_pos a.down) v above below
