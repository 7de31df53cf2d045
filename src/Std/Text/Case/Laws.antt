-- ===== src/Std/Text/Case/Laws.antt =====
-- Laws of `to_lowercase`, and what is assumed of the tables of Unicode.
use tinyproxy_rust.Prelude.{
  ℕ, ◌≡◌, ◌≢◌, refl, ap, ◌∙◌, ◌⊎◌, inl, inr, true, ◌&&◌, [], ◌∷◌, map, is_empty, all, All,
  Bool-cases, arith,
}
use tinyproxy_rust.Std.Text.{Str, is_ascii, is_whitespace, trim_start, trim_end, trim}
use tinyproxy_rust.Std.Text.Case.{Unicode, ascii_lower, to_lowercase}
use tinyproxy_rust.Std.Utf8.RoundTrip.{IsScalar}

pub ascii_lower_idem : (c : ℕ) → ascii_lower (ascii_lower c) ≡ ascii_lower c
unfolding ascii_lower
ascii_lower_idem c = ground arith

pub is_ascii-ascii_lower : (c : ℕ) → is_ascii c ≡ true → is_ascii (ascii_lower c) ≡ true
unfolding ascii_lower
is_ascii-ascii_lower c h = ground arith

pub is_whitespace-ascii_lower : (c : ℕ) → is_whitespace (ascii_lower c) ≡ is_whitespace c
unfolding ascii_lower is_whitespace
is_whitespace-ascii_lower c = ground arith

ascii_lower-ne : (c d : ℕ) → (c ≡ b':') ⊎ (c ≡ b'\n') → d ≢ c → ascii_lower d ≢ c
unfolding ascii_lower
ascii_lower-ne c d k h = ground arith

IsScalar-ascii_lower : (d : ℕ) → IsScalar d → IsScalar (ascii_lower d)
unfolding ascii_lower
IsScalar-ascii_lower d h = ground arith

pub map-ascii_lower_idem : (s : Str) → map ascii_lower (map ascii_lower s) ≡ map ascii_lower s
map-ascii_lower_idem [] = refl
map-ascii_lower_idem (c ∷ s) = cc (ascii_lower_idem c, map-ascii_lower_idem s)

trim_start-map : (s : Str) → trim_start (map ascii_lower s) ≡ map ascii_lower (trim_start s)
unfolding trim_start
trim_start-map [] = refl
trim_start-map (c ∷ s) = elim (Bool-cases (is_whitespace c)) [
  | inl x ↦ rw (is_whitespace-ascii_lower c, x) (trim_start-map s)
  | inr x ↦ rw (is_whitespace-ascii_lower c, x)
]

is_empty-map : (s : Str) → is_empty (map ascii_lower s) ≡ is_empty s
is_empty-map [] = refl
is_empty-map (c ∷ s) = refl

trim_end-map : (s : Str) → trim_end (map ascii_lower s) ≡ map ascii_lower (trim_end s)
unfolding trim_end
trim_end-map [] = refl
trim_end-map (c ∷ s) = elim (Bool-cases (is_empty (trim_end s) && is_whitespace c)) [
  | inl x ↦ rw (trim_end-map s, is_empty-map (trim_end s), is_whitespace-ascii_lower c, x)
  | inr x ↦ rw (trim_end-map s, is_empty-map (trim_end s), is_whitespace-ascii_lower c, x)
]

pub trim-map : (s : Str) → trim (map ascii_lower s) ≡ map ascii_lower (trim s)
unfolding trim
trim-map s = ap trim_end (trim_start-map s) ∙ trim_end-map (trim_start s)

pub all-map-ascii_lower :
    (s : Str) → all is_ascii s ≡ true → all is_ascii (map ascii_lower s) ≡ true
all-map-ascii_lower [] h = refl
all-map-ascii_lower (c ∷ s) h = ground (arith, all-map-ascii_lower s, is_ascii-ascii_lower c)

pub map-ascii_lower_ne :
    (c : ℕ)
    → (c ≡ b':') ⊎ (c ≡ b'\n')
    → (s : Str) → All (λ d. d ≢ c) s
    → All (λ d. d ≢ c) (map ascii_lower s)
map-ascii_lower_ne c k [] h = tt
map-ascii_lower_ne c k (d ∷ s) (p, h) = (ascii_lower-ne c d k p, map-ascii_lower_ne c k s h)

pub map-ascii_lower-IsScalar : (s : Str) → All IsScalar s → All IsScalar (map ascii_lower s)
map-ascii_lower-IsScalar [] h = tt
map-ascii_lower-IsScalar (d ∷ s) (p, h) = (IsScalar-ascii_lower d p, map-ascii_lower-IsScalar s h)

-- What the conversion does not do, outside ASCII: change a text a second time, make a blank at an
-- end, a colon, a line feed or a value that is no character.
pub record CaseLaws ⦃u : Unicode⦄ : Type 0 where
  pub idem : (s : Str) → to_lowercase (u.lowercase s) ≡ u.lowercase s
  pub trimmed : (s : Str) → trim s ≡ s → trim (u.lowercase s) ≡ u.lowercase s
  pub keeps_out :
      (c : ℕ)
      → (c ≡ b':') ⊎ (c ≡ b'\n')
      → (s : Str) → All (λ d. d ≢ c) s
      → All (λ d. d ≢ c) (u.lowercase s)
  pub scalar : (s : Str) → All IsScalar s → All IsScalar (u.lowercase s)

module _ ⦃u : Unicode⦄ (laws : CaseLaws) where
  pub to_lowercase_idem : (s : Str) → to_lowercase (to_lowercase s) ≡ to_lowercase s
  unfolding to_lowercase
  to_lowercase_idem s = elim (Bool-cases (all is_ascii s)) [
    | inl x ↦ rw x (rw (all-map-ascii_lower s x) (map-ascii_lower_idem s))
    | inr x ↦ rw x (laws.idem s)
  ]

  pub trim-to_lowercase : (s : Str) → trim s ≡ s → trim (to_lowercase s) ≡ to_lowercase s
  unfolding to_lowercase
  trim-to_lowercase s h = elim (Bool-cases (all is_ascii s)) [
    | inl x ↦ rw x (trim-map s ∙ ap (map ascii_lower) h)
    | inr x ↦ rw x (laws.trimmed s h)
  ]

  pub to_lowercase-All_ne :
      (c : ℕ)
      → (c ≡ b':') ⊎ (c ≡ b'\n')
      → (s : Str) → All (λ d. d ≢ c) s
      → All (λ d. d ≢ c) (to_lowercase s)
  unfolding to_lowercase
  to_lowercase-All_ne c k s h = elim (Bool-cases (all is_ascii s)) [
    | inl x ↦ rw x (map-ascii_lower_ne c k s h)
    | inr x ↦ rw x (laws.keeps_out c k s h)
  ]

  pub to_lowercase-IsScalar : (s : Str) → All IsScalar s → All IsScalar (to_lowercase s)
  unfolding to_lowercase
  to_lowercase-IsScalar s h = elim (Bool-cases (all is_ascii s)) [
    | inl x ↦ rw x (map-ascii_lower-IsScalar s h)
    | inr x ↦ rw x (laws.scalar s h)
  ]
