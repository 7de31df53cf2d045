-- ===== src/Http/Framing.antt =====
-- Where the head of a request ends: `find_end_of_headers` of src/connection.rs.
use tinyproxy_rust.Prelude.{
  ℕ, zero, suc, ◌+◌, ◌<◌, ◌≤◌, ◌≡◌, ◌↔◌, refl, ap, ◌∙◌, true, false, some, [], ◌∷◌, length, drop,
  Bool-cases, inl, inr, arith,
}
use tinyproxy_rust.Std.Utf8.{Bytes}
use tinyproxy_rust.Http.{four_from, find_from, find_end_of_headers}

-- A blank line's end stands at `n`.
abbrev pub EndsAt : Bytes → ℕ → Type 0
EndsAt bs n = (rest : Bytes) × (drop n bs ≡ b'\r' ∷ b'\n' ∷ b'\r' ∷ b'\n' ∷ rest)

four_from-EndsAt : (bs : Bytes) → four_from bs ≡ true → EndsAt bs 0
unfolding four_from
four_from-EndsAt [] e = cc
four_from-EndsAt (a ∷ []) e = cc
four_from-EndsAt (a ∷ b ∷ []) e = cc
four_from-EndsAt (a ∷ b ∷ c ∷ []) e = cc
four_from-EndsAt (a ∷ b ∷ c ∷ d ∷ bs) e =
    let p : a ≡ b'\r' = ground arith in
    let q : b ≡ b'\n' = ground arith in
    let r : c ≡ b'\r' = ground arith in
    let s : d ≡ b'\n' = ground arith in rw (p, q, r, s) (bs, refl)

EndsAt-four_from : (bs : Bytes) → EndsAt bs 0 → four_from bs ≡ true
unfolding four_from
EndsAt-four_from bs (rest, e) = rw (e, four_from) refl

none_before :
    (b : ℕ) (bs : Bytes) (k : ℕ)
    → four_from (b ∷ bs) ≡ false
    → ((j : ℕ) → j < k → ¬ EndsAt bs j)
    → (j : ℕ) → j < suc k
    → ¬ EndsAt (b ∷ bs) j
none_before b bs k x first zero h at = cc (EndsAt-four_from (b ∷ bs) at, x)
none_before b bs k x first (suc j) h at = first j (omega arith) at

find_from-EndsAt :
    (i : ℕ) (bs : Bytes) (n : ℕ)
    → find_from i bs ≡ some n
    → (k : ℕ) × (n ≡ i + k) × EndsAt bs k × ((j : ℕ) → j < k → ¬ EndsAt bs j)
unfolding find_from
find_from-EndsAt i [] n e = cc
find_from-EndsAt i (b ∷ bs) n e = elim (Bool-cases (four_from (b ∷ bs))) [
  | inl x ↦ (0, ground (arith, x, e), four_from-EndsAt (b ∷ bs) x, λ j h. absurd (omega arith))
  | inr x ↦
      let later : find_from (suc i) bs ≡ some n = ground (arith, x, e) in
      let (k, eq, ends, first) = find_from-EndsAt (suc i) bs n later in
      (suc k, omega (arith, eq), ends, none_before b bs k x first)
]

EndsAt-find_from :
    (i : ℕ) (bs : Bytes) (k : ℕ)
    → EndsAt bs k
    → ((j : ℕ) → j < k → ¬ EndsAt bs j)
    → find_from i bs ≡ some (i + k)
unfolding find_from
EndsAt-find_from i [] zero (rest, e) first = cc
EndsAt-find_from i [] (suc k) (rest, e) first = cc
EndsAt-find_from i (b ∷ bs) zero at first =
    rw (EndsAt-four_from (b ∷ bs) at) (ap some (omega arith))
EndsAt-find_from i (b ∷ bs) (suc k) at first = elim (Bool-cases (four_from (b ∷ bs))) [
  | inl x ↦ absurd (first 0 (omega arith) (four_from-EndsAt (b ∷ bs) x))
  | inr x ↦ rw x (
      EndsAt-find_from (suc i) bs k at (λ j h. first (suc j) (omega arith)) ∙ ap some (omega arith))
]

-- The search finds a place exactly when it is the first one at which a blank line ends the head.
pub find_end_of_headers_iff :
    (buffer : Bytes) (n : ℕ)
    → (find_end_of_headers buffer ≡ some n)
      ↔ (EndsAt buffer n × ((j : ℕ) → j < n → ¬ EndsAt buffer j))
unfolding find_end_of_headers
find_end_of_headers_iff buffer n = (
  (λ e.
      let (k, eq, ends, first) = find_from-EndsAt 0 buffer n e in
      let same : n ≡ k = omega (arith, eq) in rw same (ends, first)),
  (λ h. EndsAt-find_from 0 buffer n h.0 h.1 ∙ ap some (omega arith)),
)

-- The mark lies within the buffer.
pub EndsAt-le : (bs : Bytes) (n : ℕ) → EndsAt bs n → n + 4 ≤ length bs
EndsAt-le bs zero (rest, e) = rw e (omega arith)
EndsAt-le [] (suc n) (rest, e) = cc
EndsAt-le (b ∷ bs) (suc n) at = omega (arith, EndsAt-le bs n at)
