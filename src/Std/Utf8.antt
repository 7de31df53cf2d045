-- ===== src/Std/Utf8.antt =====
-- UTF-8: `as_bytes`, `String::from_utf8_lossy` and `String::from_utf8`. A wrong sequence is as long
-- as the part of it that could still have begun a character, at least one byte.
pub mod RoundTrip
use tinyproxy_rust.Prelude.{
  ℕ, zero, suc, ◌+◌, ◌-◌, ◌*◌, ◌/◌, ◌%◌, Bool, true, false, ◌&&◌, Option, none, some, List, [], ◌∷◌,
  ◌++◌, ltb, leb, ◌==◌, if◌then◌else◌,
}
use tinyproxy_rust.Std.Text.{Str}

abbrev pub Bytes : Type 0
Bytes = List ℕ

abbrev encode_char : ℕ → Bytes → Bytes
encode_char c rest =
    if ltb c 0x80
    then c ∷ rest
    else if ltb c 0x800
    then (0xC0 + c / 64) ∷ (0x80 + c % 64) ∷ rest
    else if ltb c 0x10000
    then (0xE0 + c / 4096) ∷ (0x80 + c / 64 % 64) ∷ (0x80 + c % 64) ∷ rest
    else (0xF0 + c / 262144)
      ∷ (0x80 + c / 4096 % 64)
      ∷ (0x80 + c / 64 % 64)
      ∷ (0x80 + c % 64)
      ∷ rest

-- `as_bytes`.
unfoldable pub encode : Str → Bytes
encode [] = []
encode (c ∷ s) = encode_char c (encode s)

abbrev pub in_range : ℕ → ℕ → ℕ → Bool
in_range lo hi b = leb lo b && leb b hi

-- The byte at a place, 0 past the end.
abbrev byte_at : ℕ → Bytes → ℕ
byte_at i [] = 0
byte_at zero (b ∷ bs) = b
byte_at (suc i) (b ∷ bs) = byte_at i bs

-- A character, or nothing if the sequence is wrong, and how many bytes after the first it takes.
abbrev pub Chunk : Type 0
Chunk = Option ℕ × ℕ

two_bytes : ℕ → ℕ → Chunk
two_bytes b c = if in_range 0x80 0xBF c then (some ((b - 0xC0) * 64 + (c - 0x80)), 1) else (none, 0)

-- The second byte of a longer sequence lies between `lo` and `hi`.
three_bytes : ℕ → ℕ → ℕ → ℕ → ℕ → Chunk
three_bytes lo hi b c d =
    if in_range lo hi c
    then (if in_range 0x80 0xBF d
        then (some ((b - 0xE0) * 4096 + (c - 0x80) * 64 + (d - 0x80)), 2)
        else (none, 1))
    else (none, 0)

four_bytes : ℕ → ℕ → ℕ → ℕ → ℕ → ℕ → Chunk
four_bytes lo hi b c d e =
    if in_range lo hi c
    then (if in_range 0x80 0xBF d
        then (if in_range 0x80 0xBF e
            then (some ((b - 0xF0) * 262144 + (c - 0x80) * 4096 + (d - 0x80) * 64 + (e - 0x80)), 3)
            else (none, 2))
        else (none, 1))
    else (none, 0)

-- The table of the Unicode standard: no surrogates, no overlong forms, nothing above 0x10FFFF.
chunk : ℕ → Bytes → Chunk
chunk b bs =
    let c = byte_at 0 bs in
    let d = byte_at 1 bs in
    let e = byte_at 2 bs in
    if ltb b 0x80
    then (some b, 0)
    else if in_range 0xC2 0xDF b
    then two_bytes b c
    else if b == 0xE0
    then three_bytes 0xA0 0xBF b c d
    else if b == 0xED
    then three_bytes 0x80 0x9F b c d
    else if in_range 0xE1 0xEF b
    then three_bytes 0x80 0xBF b c d
    else if b == 0xF0
    then four_bytes 0x90 0xBF b c d e
    else if b == 0xF4
    then four_bytes 0x80 0x8F b c d e
    else if in_range 0xF1 0xF3 b
    then four_bytes 0x80 0xBF b c d e
    else (none, 0)

-- The chunks of a text; `skip` bytes belong to the chunk before.
chunks : ℕ → Bytes → List (Option ℕ)
chunks skip [] = []
chunks zero (b ∷ bs) = let (c, n) = chunk b bs in c ∷ chunks n bs
chunks (suc skip) (b ∷ bs) = chunks skip bs

replace_wrong : List (Option ℕ) → Str
replace_wrong [] = []
replace_wrong (some c ∷ cs) = c ∷ replace_wrong cs
replace_wrong (none ∷ cs) = 0xFFFD ∷ replace_wrong cs

unfoldable pub from_utf8_lossy : Bytes → Str
unfolding chunks chunk two_bytes three_bytes four_bytes replace_wrong
from_utf8_lossy bs = replace_wrong (chunks 0 bs)

all_right : List (Option ℕ) → Option Str
all_right [] = some []
all_right (none ∷ cs) = none
all_right (some c ∷ cs) = elim (all_right cs) [ none ↦ none | some s ↦ some (c ∷ s) ]

unfoldable pub from_utf8 : Bytes → Option Str
unfolding chunks chunk two_bytes three_bytes four_bytes all_right
from_utf8 bs = all_right (chunks 0 bs)
