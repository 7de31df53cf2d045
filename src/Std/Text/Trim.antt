-- ===== src/Std/Text/Trim.antt =====
-- Laws of `trim` and of the words of a text.
use tinyproxy_rust.Prelude.{
  ℕ, ◌≡◌, refl, ap, ◌∙◌, ◌≢◌, true, false, ◌&&◌, List, [], ◌∷◌, ◌++◌, is_empty, All, Bool-cases,
  inl, inr, arith,
}
use tinyproxy_rust.Std.Text.{
  Str, is_whitespace, trim_start, trim_end, trim, split, nonempty_parts, split_whitespace,
}
use tinyproxy_rust.Std.Text.Laws.{
  IsFree, split_undivided, split-at, split-All, split-IsFree, nonempty_parts-All,
}

module _ (P : ℕ → Type 0) where
  trim_start-All : (s : Str) → All P s → All P (trim_start s)
  unfolding trim_start
  trim_start-All [] h = tt
  trim_start-All (c ∷ s) (p, h) = elim (Bool-cases (is_whitespace c)) [
    | inl x ↦ rw x (trim_start-All s h)
    | inr x ↦ rw x (p, h)
  ]

  trim_end-All : (s : Str) → All P s → All P (trim_end s)
  unfolding trim_end
  trim_end-All [] h = tt
  trim_end-All (c ∷ s) (p, h) = elim (Bool-cases (is_empty (trim_end s) && is_whitespace c)) [
    | inl x ↦ rw x tt
    | inr x ↦ rw x (p, trim_end-All s h)
  ]

  -- What holds of every character holds of those that are left.
  pub trim-All : (s : Str) → All P s → All P (trim s)
  unfolding trim
  trim-All s h = trim_end-All (trim_start s) (trim_start-All s h)

abbrev NoLead : Str → Type 0
NoLead [] = Unit
NoLead (c ∷ s) = is_whitespace c ≡ false

trim_start-NoLead : (s : Str) → NoLead (trim_start s)
unfolding trim_start
trim_start-NoLead [] = tt
trim_start-NoLead (c ∷ s) = elim (Bool-cases (is_whitespace c)) [
  | inl x ↦ rw x (trim_start-NoLead s)
  | inr x ↦ rw x x
]

trim_start_of_NoLead : (s : Str) → NoLead s → trim_start s ≡ s
unfolding trim_start
trim_start_of_NoLead [] h = refl
trim_start_of_NoLead (c ∷ s) h = rw h

trim_end-NoLead : (s : Str) → NoLead s → NoLead (trim_end s)
unfolding trim_end
trim_end-NoLead [] h = tt
trim_end-NoLead (c ∷ s) h = elim (Bool-cases (is_empty (trim_end s) && is_whitespace c)) [
  | inl x ↦ rw x tt
  | inr x ↦ rw x h
]

trim_end_idem : (s : Str) → trim_end (trim_end s) ≡ trim_end s
unfolding trim_end
trim_end_idem [] = refl
trim_end_idem (c ∷ s) = ground (arith, trim_end_idem s)

pub trim_idem : (s : Str) → trim (trim s) ≡ trim s
unfolding trim
trim_idem s =
    ap trim_end (trim_start_of_NoLead _ (trim_end-NoLead _ (trim_start-NoLead s)))
    ∙ trim_end_idem (trim_start s)

-- A blank in front is trimmed.
pub trim-cons : (c : ℕ) (s : Str) → is_whitespace c ≡ true → trim (c ∷ s) ≡ trim s
unfolding trim
trim-cons c s h = rw h

-- A word: at least one character, and no blank.
abbrev pub IsWord : Str → Type 0
IsWord s = IsFree is_whitespace s × (s ≢ [])

nonempty_parts-cons :
    (w : Str) (ps : List Str) → w ≢ [] → nonempty_parts (w ∷ ps) ≡ w ∷ nonempty_parts ps
nonempty_parts-cons [] ps h = absurd (h refl)
nonempty_parts-cons (c ∷ s) ps h = refl

split_whitespace_word : (w : Str) → IsWord w → split_whitespace w ≡ w ∷ []
unfolding split_whitespace
split_whitespace_word w (h, ne) =
    ap nonempty_parts (split_undivided is_whitespace w h) ∙ nonempty_parts-cons w [] ne

split_whitespace-append :
    (w : Str) (c : ℕ) (s : Str)
    → IsWord w
    → is_whitespace c ≡ true
    → split_whitespace (w ++ c ∷ s) ≡ w ∷ split_whitespace s
unfolding split_whitespace
split_whitespace-append w c s (h, ne) e =
    ap nonempty_parts (split-at is_whitespace w c s h e)
    ∙ nonempty_parts-cons w (split is_whitespace s) ne

pub split_whitespace_three :
    (a b c : Str)
    → IsWord a
    → IsWord b
    → IsWord c
    → split_whitespace (a ++ (b' ' ∷ (b ++ (b' ' ∷ c)))) ≡ a ∷ b ∷ c ∷ []
split_whitespace_three a b c ha hb hc =
    split_whitespace-append a b' ' _ ha (unfold is_whitespace in refl)
    ∙ ap (◌∷◌ a) (
        split_whitespace-append b b' ' c hb (unfold is_whitespace in refl)
        ∙ ap (◌∷◌ b) (split_whitespace_word c hc))

-- The words of a text, and what holds of its characters holds of theirs.
pub split_whitespace-IsWord : (s : Str) → All IsWord (split_whitespace s)
unfolding split_whitespace
split_whitespace-IsWord s =
    nonempty_parts-All (IsFree is_whitespace) _ (split-IsFree is_whitespace s)

pub split_whitespace-All :
    (P : ℕ → Type 0) (s : Str) → All P s → All (λ w. All P w × (w ≢ [])) (split_whitespace s)
unfolding split_whitespace
split_whitespace-All P s h = nonempty_parts-All (All P) _ (split-All is_whitespace P s h)
