-- ===== src/Std/Number/RoundTrip.antt =====
-- A number that is printed is read back, for the library functions of `Std.Number`.
use tinyproxy_rust.Prelude.{
  ℕ, zero, suc, ◌+◌, ◌-◌, ◌*◌, ◌/◌, ◌%◌, ◌≤◌, ◌<◌, ◌≡◌, ◌++◌, if◌then◌else◌, true, false, length,
  ◌≢◌, refl, ap, ◌∙◌, if_intro, some, [], ◌∷◌, All, ltb, arith, ltb→lt,
}
use tinyproxy_rust.Std.Text.{Str}
use tinyproxy_rust.Std.Number.{parse_digits, parse_uint, parse_unsigned, print_digits, print_uint}

abbrev pub IsDigit : ℕ → Type 0
IsDigit c = (b'0' ≤ c) × (c ≤ b'9')

digit : (n : ℕ) → IsDigit (b'0' + n % 10)
digit n = (omega arith, omega arith)

print_digits-IsDigit :
    (fuel n : ℕ) (rest : Str) → All IsDigit rest → All IsDigit (print_digits fuel n rest)
unfolding print_digits
print_digits-IsDigit zero n rest h = h
print_digits-IsDigit (suc fuel) n rest h =
    let here = digit n in
    if_intro (All IsDigit) (ltb n 10) _ _ (λ _. (here, h))
      (λ _. print_digits-IsDigit fuel (n / 10) ((b'0' + n % 10) ∷ rest) (here, h))

pub print_uint-IsDigit : (n : ℕ) → All IsDigit (print_uint n)
unfolding print_uint
print_uint-IsDigit n = print_digits-IsDigit (suc n) n [] tt

parse_digits-digit :
    (top acc n c : ℕ) (rest : Str)
    → IsDigit c
    → n ≤ top
    → acc * 10 + (c - b'0') ≡ n
    → parse_digits top acc (c ∷ rest) ≡ parse_digits top n rest
unfolding parse_digits
parse_digits-digit top acc n c rest d h e =
    ground (arith, d.0, d.1, ap (λ k. parse_digits top k rest) e)

parse_digits-print_digits :
    (top fuel n : ℕ) (rest : Str)
    → n < fuel
    → n ≤ top
    → parse_digits top 0 (print_digits fuel n rest) ≡ parse_digits top n rest
unfolding print_digits
parse_digits-print_digits top zero n rest h k = absurd (omega (arith, h))
parse_digits-print_digits top (suc fuel) n rest h k =
    if_intro (λ s. parse_digits top 0 s ≡ parse_digits top n rest) (ltb n 10) _ _
      (λ small.
        parse_digits-digit top 0 n (b'0' + n % 10) rest (digit n) k
          (let less = ltb→lt n 10 small in omega (arith, less)))
      (λ big.
        let positive : 10 ≤ n = ground arith in
        parse_digits-print_digits top fuel (n / 10) ((b'0' + n % 10) ∷ rest) (omega arith)
          (omega arith)
        ∙ parse_digits-digit top (n / 10) n (b'0' + n % 10) rest (digit n) k (omega arith))

parse_uint-digits :
    (top n : ℕ) (s : Str)
    → All IsDigit s
    → parse_digits top 0 s ≡ some n
    → s ≢ []
    → parse_uint top s ≡ some n
unfolding parse_uint parse_unsigned
parse_uint-digits top n [] d e ne = absurd (ne refl)
parse_uint-digits top n (c ∷ s) (d, ds) e ne = ground (arith, d, e)

print_digits-ne_nil : (fuel n : ℕ) (rest : Str) → rest ≢ [] → print_digits fuel n rest ≢ []
unfolding print_digits
print_digits-ne_nil zero n rest h = h
print_digits-ne_nil (suc fuel) n rest h =
    if_intro (λ s. s ≢ []) (ltb n 10) _ _ (λ _ e. cc e)
      (λ _. print_digits-ne_nil fuel (n / 10) ((b'0' + n % 10) ∷ rest) (λ e. cc e))

print_uint-ne_nil : (n : ℕ) → print_uint n ≢ []
unfolding print_uint print_digits
print_uint-ne_nil n =
    if_intro (λ s. s ≢ []) (ltb n 10) _ _ (λ _ e. cc e)
      (λ _. print_digits-ne_nil n (n / 10) ((b'0' + n % 10) ∷ []) (λ e. cc e))

-- A number that fits the type is read from its print.
pub parse_uint-print_uint : (top n : ℕ) → n ≤ top → parse_uint top (print_uint n) ≡ some n
unfolding print_uint parse_digits
parse_uint-print_uint top n h =
    parse_uint-digits top n (print_uint n) (print_uint-IsDigit n)
      (parse_digits-print_digits top (suc n) n [] (omega arith) h) (print_uint-ne_nil n)

length-small :
    (fuel n : ℕ) (rest : Str) → n < 10 → length (print_digits (suc fuel) n rest) ≡ suc (length rest)
unfolding print_digits
length-small fuel n rest h = ground (arith, h)

length-big :
    (fuel n k : ℕ) (rest : Str)
    → 10 ≤ n
    → length (print_digits fuel (n / 10) ((b'0' + n % 10) ∷ rest)) ≡ k
    → length (print_digits (suc fuel) n rest) ≡ k
unfolding print_digits
length-big fuel n k rest h e = ground (arith, h, e)

pub length-print_uint : (n : ℕ) → 100 ≤ n → n < 1000 → length (print_uint n) ≡ 3
unfolding print_uint
length-print_uint (suc (suc k)) low high =
    let n = suc (suc k) in
    length-big n n 3 [] (omega (arith, low)) (
      length-big (suc k) (n / 10) 3 _ (omega (arith, low))
        (length-small k (n / 10 / 10) _ (omega (arith, high))))
length-print_uint (suc zero) low high = absurd (omega (arith, low))
length-print_uint zero low high = absurd (omega (arith, low))

-- A reader of characters, one after the other.
abbrev pub run {ℓ} : {S : Type ℓ} → (S → ℕ → S) → S → Str → S
run step state [] = state
run step state (c ∷ s) = run step (step state c) s

-- A reader that takes each digit into the number that it has read so far reads the print of a number.
module _ {ℓ} {S : Type ℓ} (step : S → ℕ → S) (read : ℕ → S)
    (digits : (k c : ℕ) → IsDigit c → step (read k) c ≡ read (k * 10 + (c - b'0'))) where
  run-print_digits :
      (fuel n : ℕ) (rest : Str)
      → n < fuel
      → run step (read 0) (print_digits fuel n rest) ≡ run step (read n) rest
  unfolding print_digits
  run-print_digits zero n rest h = absurd (omega (arith, h))
  run-print_digits (suc fuel) n rest h =
      let c = b'0' + n % 10 in
      if_intro (λ s. run step (read 0) s ≡ run step (read n) rest) (ltb n 10) _ _
        (λ small.
          let less = ltb→lt n 10 small in
          ap (λ k. run step k rest) (digits 0 c (digit n) ∙ ap read (omega (arith, less))))
        (λ big.
          let positive : 10 ≤ n = ground arith in
          run-print_digits fuel (n / 10) (c ∷ rest) (omega (arith, h, positive))
          ∙ ap (λ k. run step k rest) (digits (n / 10) c (digit n) ∙ ap read (omega arith)))

  print_digits-append :
      (fuel n : ℕ) (s rest : Str) → print_digits fuel n s ++ rest ≡ print_digits fuel n (s ++ rest)
  unfolding print_digits
  print_digits-append zero n s rest = refl
  print_digits-append (suc fuel) n s rest =
      elim (ltb n 10)
        as (λ b.
          (if b then (b'0' + n % 10) ∷ s else print_digits fuel (n / 10) ((b'0' + n % 10) ∷ s))
            ++ rest
          ≡ (if b
              then (b'0' + n % 10) ∷ (s ++ rest)
              else print_digits fuel (n / 10) ((b'0' + n % 10) ∷ (s ++ rest)))) [
                | true ↦ refl
                | false ↦ print_digits-append fuel (n / 10) ((b'0' + n % 10) ∷ s) rest
              ]

  pub run-print_uint :
      (n : ℕ) (rest : Str) → run step (read 0) (print_uint n ++ rest) ≡ run step (read n) rest
  unfolding print_uint
  run-print_uint n rest =
      ap (run step (read 0)) (print_digits-append (suc n) n [] rest)
      ∙ run-print_digits (suc n) n rest (omega arith)
