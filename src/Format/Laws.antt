-- ===== src/Format/Laws.antt =====
-- What `format_bytes` of src/utils.rs and src/stats.rs shows.
use tinyproxy_rust.Prelude.{
  ℕ, zero, suc, ◌+◌, ◌-◌, ◌*◌, ◌^◌, ◌<◌, ◌≤◌, ◌≡◌, ◌⊎◌, inl, inr, refl, ap, subst, sym, ◌∙◌,
  if_intro, List, length, ◌++◌, ◌==◌, if◌then◌else◌, arith,
}
use tinyproxy_rust.Std.Text.{Str, codes}
use tinyproxy_rust.Std.Number.{print_uint}
use tinyproxy_rust.Std.Float.{F64, of_uint, div, ge, scaled, print_scaled, print_fixed}
use tinyproxy_rust.Std.Float.Rounding.{pow-add}
use tinyproxy_rust.Std.Float.Laws.{
  IsValue, of_uint-IsValue, div-IsValue, ge-le, not-ge-lt, scaled_near,
}
use tinyproxy_rust.Format.{shrink, unit_name, show_size, format_in, units, format_bytes}

kilo-IsValue : IsValue (of_uint 1024) (2 ^ 10) 0
kilo-IsValue = of_uint-IsValue 1024 (omega arith)

-- The index `k` of the unit and the size `s` that the loop stops with, from the index `i` on.
record IsShrunk (left i m k : ℕ) (s : F64) : Type 0 where
  value : IsValue s m (10 * k)
  from : i ≤ k
  upto : k ≤ i + left
  reached : (k ≡ i) ⊎ (2 ^ (10 * k) ≤ m)
  least : (k ≡ i + left) ⊎ (m < 2 ^ (10 * (k + 1)))

thousand : (i : ℕ) → 2 ^ 10 * 2 ^ (10 * i) ≡ 2 ^ (10 * (i + 1))
thousand i = sym (pow-add 10 (10 * i)) ∙ ap (λ k. 2 ^ k) (omega arith)

next_IsShrunk :
    (left i m k : ℕ) (s : F64)
    → 2 ^ (10 * suc i) ≤ m
    → IsShrunk left (suc i) m k s
    → IsShrunk (suc left) i m k s
next_IsShrunk left i m k s big r = record {
  value = r.value;
  from = omega (arith, r.from);
  upto = omega (arith, r.upto);
  reached = elim r.reached [
    | inl e ↦ inr (subst (λ t. 2 ^ (10 * t) ≤ m) (sym e) big)
    | inr h ↦ inr h
  ];
  least = elim r.least [ inl e ↦ inl (omega (arith, e)) | inr h ↦ inr h ];
}

shrink-IsShrunk :
    (left i : ℕ) (size : F64) (m : ℕ)
    → IsValue size m (10 * i)
    → m < 2 ^ 53
    → 10 * (i + left) ≤ 76
    → IsShrunk left i m (shrink left i size).0 (shrink left i size).1
unfolding shrink
shrink-IsShrunk zero i size m v fits small = record {
  value = v;
  from = omega arith;
  upto = omega arith;
  reached = inl refl;
  least = inl (omega arith);
}
shrink-IsShrunk (suc left) i size m v fits small =
    if_intro (λ (r : ℕ × F64). IsShrunk (suc left) i m r.0 r.1) (ge size (of_uint 1024)) _ _
      (λ y.
        let big : 2 ^ (10 * suc i) ≤ m =
          subst (λ t. t ≤ m) (thousand i ∙ ap (λ k. 2 ^ k) (omega arith))
            (ge-le size m (10 * i) v (of_uint 1024) 10 kilo-IsValue y) in
        let smaller : IsValue (div size (of_uint 1024)) m (10 * suc i) =
          subst (λ j. IsValue (div size (of_uint 1024)) m j) (omega arith)
            (div-IsValue size m (10 * i) v (of_uint 1024) 10 kilo-IsValue fits (omega arith)) in
        next_IsShrunk left i m _ _ big
          (shrink-IsShrunk left (suc i) (div size (of_uint 1024)) m smaller fits (omega arith)))
      (λ n. record {
        value = v;
        from = omega arith;
        upto = omega arith;
        reached = inl refl;
        least = inr (
            subst (λ t. m < t) (thousand i)
              (not-ge-lt size m (10 * i) v (of_uint 1024) 10 kilo-IsValue n));
      })

-- The text of `bytes` in the unit with the index `k`: the number itself, or `v` hundredths.
abbrev pub text_in : List Str → ℕ → ℕ → ℕ → Str
text_in units bytes k v =
    if k == 0
    then print_uint bytes ++ (codes " " ++ unit_name units k)
    else print_scaled 2 v ++ (codes " " ++ unit_name units k)

-- The unit is the largest that the number reaches, if there is one as large, and `v` hundredths of it
-- are at most half a hundredth away from the number.
pub record IsNear (last bytes k v : ℕ) : Type 0 where
  pub upto : k ≤ last
  pub reached : (k ≡ 0) ⊎ (2 ^ (10 * k) ≤ bytes)
  pub least : (k ≡ last) ⊎ (bytes < 2 ^ (10 * (k + 1)))
  pub above : 2 * (v * 2 ^ (10 * k)) ≤ 200 * bytes + 2 ^ (10 * k)
  pub below : 200 * bytes ≤ 2 * (v * 2 ^ (10 * k)) + 2 ^ (10 * k)

-- For up to seven units and every number below 2^53, what is shown is the number itself below 1024, and
-- else the nearest number of hundredths of the largest unit that the number reaches.
pub format_in-IsNear :
    (units : List Str) (bytes : ℕ)
    → length units ≤ 7
    → bytes < 2 ^ 53
    → (k v : ℕ) × (format_in units bytes ≡ text_in units bytes k v)
      × IsNear (length units - 1) bytes k v
unfolding format_in show_size print_fixed
format_in-IsNear units bytes few fits =
    let last = length units - 1 in
    let r = shrink last 0 (of_uint bytes) in
    let shrunk =
      shrink-IsShrunk last 0 (of_uint bytes) bytes (of_uint-IsValue bytes fits) fits
        (omega arith) in
    let (above, below) = scaled_near r.1 bytes (10 * r.0) shrunk.value 2 in
    (
      r.0,
      scaled 2 r.1,
      refl,
      record {
        upto = omega (arith, shrunk.upto);
        reached = shrunk.reached;
        least = elim shrunk.least [ inl e ↦ inl (omega (arith, e)) | inr h ↦ inr h ];
        above = omega (arith, above);
        below = omega (arith, below);
      },
    )

-- The same of `format_bytes` of src/utils.rs.
pub format_bytes-IsNear :
    (bytes : ℕ)
    → bytes < 2 ^ 53
    → (k v : ℕ) × (format_bytes bytes ≡ text_in units bytes k v) × IsNear 4 bytes k v
unfolding format_bytes
format_bytes-IsNear bytes = format_in-IsNear units bytes (omega arith)
