-- ===== src/Std/Text/Laws.antt =====
-- Laws of the operations on texts: comparison, cutting, trimming.
use tinyproxy_rust.Prelude.{
  ℕ, ◌≡◌, refl, ap, sym, ◌∙◌, ◌⊎◌, ◌↔◌, ◌≢◌, Bool, true, false, some, List, [], ◌∷◌, ◌++◌, All,
  Bool-cases, Option-cases, inl, inr, arith,
}
use tinyproxy_rust.Std.Text.{
  starts_with, contains, Str, ends_with, equal, split, split_once, strip_prefix, push_head,
  nonempty_parts,
}

pub equal_iff : (s t : Str) → (equal s t ≡ true) ↔ (s ≡ t)
unfolding equal
equal_iff (c ∷ s) (d ∷ t) = ground (arith, equal_iff s t)
equal_iff _ _ = ground arith

pub equal_refl : (s : Str) → equal s s ≡ true
equal_refl s = (equal_iff s s).1 refl

module _ (sep : ℕ → Bool) where
  -- A text with no separator in it.
  abbrev pub IsFree : Str → Type 0
  IsFree s = All (λ c. sep c ≡ false) s

  pub split_undivided : (s : Str) → IsFree s → split sep s ≡ s ∷ []
  unfolding split
  split_undivided [] h = refl
  split_undivided (c ∷ s) (p, h) = rw (p, split_undivided s h)

  pub split-at :
      (a : Str) (c : ℕ) (rest : Str)
      → IsFree a
      → sep c ≡ true
      → split sep (a ++ c ∷ rest) ≡ a ∷ split sep rest
  unfolding split
  split-at [] c rest h e = rw e
  split-at (d ∷ a) c rest (p, h) e = rw (p, split-at a c rest h e)

  pub split_once-at :
      (a : Str) (c : ℕ) (rest : Str)
      → IsFree a
      → sep c ≡ true
      → split_once sep (a ++ c ∷ rest) ≡ some (a, rest)
  unfolding split_once
  split_once-at [] c rest h e = rw e
  split_once-at (d ∷ a) c rest (p, h) e = rw (p, split_once-at a c rest h e)

  push_head-ne_nil : (c : ℕ) (ps : List Str) → push_head c ps ≢ []
  push_head-ne_nil c [] = ground arith
  push_head-ne_nil c (p ∷ ps) = ground arith

  pub split-ne_nil : (s : Str) → split sep s ≢ []
  unfolding split
  split-ne_nil [] = ground arith
  split-ne_nil (c ∷ s) = ground (arith, push_head-ne_nil c (split sep s))

  push_head-All :
      (P : ℕ → Type 0) (c : ℕ) (ps : List Str) → P c → All (All P) ps → All (All P) (push_head c ps)
  push_head-All P c [] p h = ((p, tt), tt)
  push_head-All P c (q ∷ ps) p (h, k) = ((p, h), k)

  pub split-All : (P : ℕ → Type 0) (s : Str) → All P s → All (All P) (split sep s)
  unfolding split
  split-All P [] h = (tt, tt)
  split-All P (c ∷ s) (p, h) = elim (Bool-cases (sep c)) [
    | inl x ↦ rw x (tt, split-All P s h)
    | inr x ↦ rw x (push_head-All P c (split sep s) p (split-All P s h))
  ]

  pub split-IsFree : (s : Str) → All IsFree (split sep s)
  unfolding split
  split-IsFree [] = (tt, tt)
  split-IsFree (c ∷ s) = elim (Bool-cases (sep c)) [
    | inl x ↦ rw x (tt, split-IsFree s)
    | inr x ↦ rw x (push_head-All (λ d. sep d ≡ false) c (split sep s) x (split-IsFree s))
  ]

  -- Joining the two parts again.
  pub split_once-eq-some :
      (s a b : Str)
      → split_once sep s ≡ some (a, b)
      → (c : ℕ) × (s ≡ a ++ c ∷ b) × (sep c ≡ true) × IsFree a
  unfolding split_once
  split_once-eq-some [] a b e = cc
  split_once-eq-some (d ∷ s) a b e = elim (Bool-cases (sep d)) [
    | inl x ↦
        let left : a ≡ [] = ground (arith, x, e) in
        let right : b ≡ s = ground (arith, x, e) in rw (left, right) (d, refl, x, tt)
    | inr x ↦ elim (Option-cases (split_once sep s)) [
      | inl y ↦ ground (arith, x, y)
      | inr (p, y) ↦
          let (c, joined, is_sep, free) = split_once-eq-some s p.0 p.1 y in
          let left : a ≡ d ∷ p.0 = ground (arith, x, y, e) in
          let right : b ≡ p.1 = ground (arith, x, y, e) in
          rw (left, right) (c, ap (◌∷◌ d) joined, is_sep, (x, free))
    ]
  ]

pub nonempty_parts-All :
    (P : Str → Type 0) (ps : List Str) → All P ps → All (λ p. P p × (p ≢ [])) (nonempty_parts ps)
nonempty_parts-All P [] h = tt
nonempty_parts-All P ([] ∷ ps) (p, h) = nonempty_parts-All P ps h
nonempty_parts-All P ((c ∷ s) ∷ ps) (p, h) = ((p, λ e. cc), nonempty_parts-All P ps h)

pub strip_prefix_iff : (p s t : Str) → (strip_prefix p s ≡ some t) ↔ (s ≡ p ++ t)
unfolding strip_prefix
strip_prefix_iff [] s t = (λ e. cc, λ e. cc)
strip_prefix_iff (c ∷ p) [] t = (λ e. cc, λ e. cc)
strip_prefix_iff (c ∷ p) (d ∷ s) t = ground (arith, strip_prefix_iff p s t)

pub ends_with-of_suffix : (p a : Str) → ends_with p (a ++ p) ≡ true
unfolding ends_with
ends_with-of_suffix [] [] = rw equal_refl refl
ends_with-of_suffix (c ∷ p) [] = ground (arith, equal_refl (c ∷ p))
ends_with-of_suffix p (c ∷ a) = ground (arith, ends_with-of_suffix p a)

pub ends_with-suffix : (p s : Str) → ends_with p s ≡ true → (a : Str) × (s ≡ a ++ p)
unfolding ends_with
ends_with-suffix p [] e = ([], sym ((equal_iff p []).0 e))
ends_with-suffix p (c ∷ s) e = elim (Bool-cases (equal p (c ∷ s))) [
  | inl x ↦ ([], sym ((equal_iff p (c ∷ s)).0 x))
  | inr x ↦ let (a, eq) = ends_with-suffix p s (ground (arith, x, e)) in (c ∷ a, ap (◌∷◌ c) eq)
]

-- `p` stands somewhere in `s`.
abbrev pub IsPart : Str → Str → Type 0
IsPart p s = (a b : Str) × (s ≡ a ++ (p ++ b))

pub starts_with_iff : (p s : Str) → (starts_with p s ≡ true) ↔ ((b : Str) × (s ≡ p ++ b))
unfolding starts_with
starts_with_iff [] s = (λ _. (s, refl), λ _. refl)
starts_with_iff (c ∷ p) [] = (λ e. cc e, λ (b, e). cc e)
starts_with_iff (c ∷ p) (d ∷ s) =
    let (to, from) = starts_with_iff p s in
    (
      (λ e.
          let same : d ≡ c = ground (arith, e) in
          let (b, eq) = to (ground (arith, e)) in (b, ap (λ k. k ∷ s) same ∙ ap (◌∷◌ c) eq)),
      (λ (b, e).
          let head : d ≡ c = cc e in
          let tail : s ≡ p ++ b = cc e in ground (arith, head, from (b, tail))),
    )

IsPart-of_nil : (p a b : Str) → [] ≡ a ++ (p ++ b) → [] ≡ p ++ b
IsPart-of_nil p [] b e = e
IsPart-of_nil p (c ∷ a) b e = cc e

IsPart-of_cons :
    (c : ℕ) (s p a b : Str) → c ∷ s ≡ a ++ (p ++ b) → ((k : Str) × (c ∷ s ≡ p ++ k)) ⊎ IsPart p s
IsPart-of_cons c s p [] b e = inl (b, e)
IsPart-of_cons c s p (d ∷ a) b e = let tail : s ≡ a ++ (p ++ b) = cc e in inr (a, b, tail)

pub contains_iff : (p s : Str) → (contains p s ≡ true) ↔ IsPart p s
unfolding contains
contains_iff p [] =
    let (to, from) = starts_with_iff p [] in
    ((λ e. let (b, eq) = to e in ([], b, eq)), (λ (a, b, e). from (b, IsPart-of_nil p a b e)))
contains_iff p (c ∷ s) =
    let (here, back) = starts_with_iff p (c ∷ s) in
    let (to, from) = contains_iff p s in
    (
      (λ e. elim (Bool-cases (starts_with p (c ∷ s))) [
        | inl y ↦ (let (b, eq) = here y in ([], b, eq))
        | inr n ↦ (let (a, b, eq) = to (ground (arith, n, e)) in (c ∷ a, b, ap (◌∷◌ c) eq))
      ]),
      (λ (a, b, e). elim (IsPart-of_cons c s p a b e) [
        | inl h ↦ ground (arith, back h)
        | inr h ↦ ground (arith, from h)
      ]),
    )
