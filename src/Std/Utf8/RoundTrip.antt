-- ===== src/Std/Utf8/RoundTrip.antt =====
-- Decoding what was encoded.
use tinyproxy_rust.Prelude.{
  ℕ, zero, suc, ◌+◌, ◌/◌, ◌%◌, ◌<◌, ◌≤◌, ◌≡◌, refl, ap, ◌∙◌, ◌⊎◌, Option, none, some, List, [], ◌∷◌,
  All, arith, ltb, inl, inr, ◌==◌, Bool-cases, if_intro, map,
}
use tinyproxy_rust.Std.Text.{Str, codes}
use tinyproxy_rust.Std.Utf8.{
  Bytes, Chunk, in_range, byte_at, encode_char, encode, two_bytes, three_bytes, four_bytes, chunk,
  chunks, replace_wrong, from_utf8_lossy, all_right, from_utf8,
}

-- A Unicode scalar value.
abbrev pub IsScalar : ℕ → Type 0
IsScalar c = (c < 0xD800) ⊎ ((0xE000 ≤ c) × (c < 0x110000))

two_bytes-eq :
    (c : ℕ) → 0x80 ≤ c → c < 0x800 → two_bytes (0xC0 + c / 64) (0x80 + c % 64) ≡ (some c, 1)
unfolding two_bytes
two_bytes-eq c p q = ground arith

three_bytes-eq :
    (lo hi c : ℕ)
    → c < 0x10000
    → lo ≤ 0x80 + c / 64 % 64
    → 0x80 + c / 64 % 64 ≤ hi
    → three_bytes lo hi (0xE0 + c / 4096) (0x80 + c / 64 % 64) (0x80 + c % 64) ≡ (some c, 2)
unfolding three_bytes
three_bytes-eq lo hi c p q r = ground arith

four_bytes-eq :
    (lo hi c : ℕ)
    → c < 0x110000
    → lo ≤ 0x80 + c / 4096 % 64
    → 0x80 + c / 4096 % 64 ≤ hi
    → four_bytes lo hi
        (0xF0 + c / 262144)
        (0x80 + c / 4096 % 64)
        (0x80 + c / 64 % 64)
        (0x80 + c % 64)
      ≡ (some c, 3)
unfolding four_bytes
four_bytes-eq lo hi c p q r = ground arith

chunk-one : (c : ℕ) (rest : Bytes) → c < 0x80 → chunk c rest ≡ (some c, 0)
unfolding chunk
chunk-one c rest p = ground arith

-- The first byte of a character of each width selects its row of the table.
chunk-two :
    (c : ℕ) (rest : Bytes)
    → 0x80 ≤ c
    → c < 0x800
    → chunk (0xC0 + c / 64) ((0x80 + c % 64) ∷ rest) ≡ (some c, 1)
unfolding chunk
chunk-two c rest p q = ground (arith, two_bytes-eq c)

chunk-three :
    (c : ℕ) (rest : Bytes)
    → 0x800 ≤ c
    → c < 0x10000
    → IsScalar c
    → chunk (0xE0 + c / 4096) ((0x80 + c / 64 % 64) ∷ (0x80 + c % 64) ∷ rest) ≡ (some c, 2)
unfolding chunk
chunk-three c rest p q h =
    ground
      (arith, three_bytes-eq 0xA0 0xBF c, three_bytes-eq 0x80 0x9F c, three_bytes-eq 0x80 0xBF c)

chunk-four :
    (c : ℕ) (rest : Bytes)
    → 0x10000 ≤ c
    → c < 0x110000
    → chunk
        (0xF0 + c / 262144)
        ((0x80 + c / 4096 % 64) ∷ (0x80 + c / 64 % 64) ∷ (0x80 + c % 64) ∷ rest)
      ≡ (some c, 3)
unfolding chunk
chunk-four c rest p q =
    ground (arith, four_bytes-eq 0x90 0xBF c, four_bytes-eq 0x80 0x8F c, four_bytes-eq 0x80 0xBF c)

chunks-encode_char :
    (c : ℕ) (rest : Bytes) → IsScalar c → chunks 0 (encode_char c rest) ≡ some c ∷ chunks 0 rest
unfolding chunks
chunks-encode_char c rest h = elim (Bool-cases (ltb c 0x80)) [
  | inl x ↦ rw (x, chunk-one c rest (ground (arith, x)))
  | inr x ↦ elim (Bool-cases (ltb c 0x800)) [
    | inl y ↦ rw (x, y, chunk-two c rest (ground (arith, x)) (ground (arith, y)))
    | inr y ↦ elim (Bool-cases (ltb c 0x10000)) [
      | inl z ↦ rw (x, y, z, chunk-three c rest (ground (arith, y)) (ground (arith, z)) h)
      | inr z ↦ rw (x, y, z, chunk-four c rest (ground (arith, z)) (ground (arith, h)))
    ]
  ]
]

chunks-encode : (s : Str) → All IsScalar s → chunks 0 (encode s) ≡ map some s
unfolding encode chunks
chunks-encode [] h = refl
chunks-encode (c ∷ s) (h, k) =
    chunks-encode_char c (encode s) h ∙ ap (◌∷◌ (some c)) (chunks-encode s k)

replace_wrong-map : (s : Str) → replace_wrong (map some s) ≡ s
unfolding replace_wrong
replace_wrong-map [] = refl
replace_wrong-map (c ∷ s) = ap (◌∷◌ c) (replace_wrong-map s)

all_right-map : (s : Str) → all_right (map some s) ≡ some s
unfolding all_right
all_right-map [] = refl
all_right-map (c ∷ s) = rw (all_right-map s)

-- A text of scalar values is read back from its bytes, by both decoders.
pub from_utf8_lossy-encode : (s : Str) → All IsScalar s → from_utf8_lossy (encode s) ≡ s
unfolding from_utf8_lossy
from_utf8_lossy-encode s h = ap replace_wrong (chunks-encode s h) ∙ replace_wrong-map s

pub from_utf8-encode : (s : Str) → All IsScalar s → from_utf8 (encode s) ≡ some s
unfolding from_utf8
from_utf8-encode s h = ap all_right (chunks-encode s h) ∙ all_right-map s

abbrev RightChunk : Chunk → Type 0
RightChunk (none, n) = Unit
RightChunk (some c, n) = IsScalar c

two_bytes-IsScalar : (b c : ℕ) → 0xC2 ≤ b → b ≤ 0xDF → RightChunk (two_bytes b c)
unfolding two_bytes
two_bytes-IsScalar b c p q = ground arith

three_bytes-IsScalar :
    (lo hi b c d : ℕ)
    → 0xE0 ≤ b
    → b ≤ 0xEF
    → lo ≤ hi
    → hi ≤ 0xBF
    → (b ≡ 0xED → hi ≤ 0x9F)
    → RightChunk (three_bytes lo hi b c d)
unfolding three_bytes
three_bytes-IsScalar lo hi b c d p q r s t = ground arith

four_bytes-IsScalar :
    (lo hi b c d e : ℕ)
    → 0xF0 ≤ b
    → b ≤ 0xF4
    → 0x80 ≤ lo
    → (b ≡ 0xF0 → 0x90 ≤ lo)
    → hi ≤ 0xBF
    → (b ≡ 0xF4 → hi ≤ 0x8F)
    → RightChunk (four_bytes lo hi b c d e)
unfolding four_bytes
four_bytes-IsScalar lo hi b c d e p q r s t u = ground arith

chunk-IsScalar : (b : ℕ) (bs : Bytes) → RightChunk (chunk b bs)
unfolding chunk
chunk-IsScalar b bs =
    let c = byte_at 0 bs in
    let d = byte_at 1 bs in
    let e = byte_at 2 bs in
    if_intro RightChunk (ltb b 0x80) _ _ (λ h. inl (ground arith))
      λ low.
        if_intro RightChunk (in_range 0xC2 0xDF b) _ _
          (λ h. two_bytes-IsScalar b c (ground arith) (ground arith))
          λ _.
            if_intro RightChunk (b == 0xE0) _ _
              (λ h.
                three_bytes-IsScalar 0xA0 0xBF b c d (ground arith) (ground arith) (omega arith)
                  (omega arith) (ground arith))
              λ _.
                if_intro RightChunk (b == 0xED) _ _
                  (λ h.
                    three_bytes-IsScalar 0x80 0x9F b c d (ground arith) (ground arith) (omega arith)
                      (omega arith) (ground arith))
                  λ other.
                    if_intro RightChunk (in_range 0xE1 0xEF b) _ _
                      (λ h.
                        three_bytes-IsScalar 0x80 0xBF b c d (ground arith) (ground arith)
                          (omega arith) (omega arith) (ground arith))
                      λ _.
                        if_intro RightChunk (b == 0xF0) _ _
                          (λ h.
                            four_bytes-IsScalar 0x90 0xBF b c d e (ground arith) (ground arith)
                              (omega arith) (omega arith) (omega arith) (ground arith))
                          λ first.
                            if_intro RightChunk (b == 0xF4) _ _
                              (λ h.
                                four_bytes-IsScalar 0x80 0x8F b c d e (ground arith) (ground arith)
                                  (omega arith) (ground arith) (omega arith) (omega arith))
                              λ last.
                                if_intro RightChunk (in_range 0xF1 0xF3 b) _ _
                                  (λ h.
                                    four_bytes-IsScalar 0x80 0xBF b c d e (ground arith)
                                      (ground arith) (omega arith) (ground arith) (omega arith)
                                      (ground arith))
                                  (λ _. tt)

chunk-replaced :
    (o : Option ℕ) (n : ℕ) (cs : List (Option ℕ))
    → RightChunk (o, n)
    → All IsScalar (replace_wrong cs)
    → All IsScalar (replace_wrong (o ∷ cs))
unfolding replace_wrong
chunk-replaced none n cs h k = (inr (omega arith, omega arith), k)
chunk-replaced (some c) n cs h k = (h, k)

replaced-IsScalar : (skip : ℕ) (bs : Bytes) → All IsScalar (replace_wrong (chunks skip bs))
unfolding chunks
replaced-IsScalar skip [] = unfold replace_wrong in tt
replaced-IsScalar zero (b ∷ bs) =
    chunk-replaced (chunk b bs).0 (chunk b bs).1 _ (chunk-IsScalar b bs)
      (replaced-IsScalar (chunk b bs).1 bs)
replaced-IsScalar (suc skip) (b ∷ bs) = replaced-IsScalar skip bs

-- Whatever the bytes, the decoded text is one of scalar values.
pub from_utf8_lossy-IsScalar : (bs : Bytes) → All IsScalar (from_utf8_lossy bs)
unfolding from_utf8_lossy
from_utf8_lossy-IsScalar bs = replaced-IsScalar 0 bs

t1 : from_utf8_lossy (encode (codes "aé€😀z")) ≡ codes "aé€😀z"
unfolding from_utf8_lossy encode
t1 = refl
