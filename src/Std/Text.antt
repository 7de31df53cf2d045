-- ===== src/Std/Text.antt =====
-- `str` and `String`: a text is the list of its Unicode scalar values. Byte offsets that the program
-- takes from `find` and slices at stand at character boundaries, so a cut at the character is the
-- same cut.
pub mod Laws
pub mod Trim
pub mod Lines
pub mod Case
use mathlib.Core.Option
use tinyproxy_rust.Prelude.{
  ℕ, zero, suc, ◌+◌, code, String, Bool, true, false, not, ◌&&◌, ◌||◌, Option, none, some, List, [],
  ◌∷◌, ◌++◌, is_empty, ltb, leb, ◌==◌, if◌then◌else◌,
}

abbrev pub Str : Type 0
Str = List ℕ

-- The characters of a literal.
abbrev pub codes : String → Str
codes String.[] = []
codes (String.◌∷◌ c s) = code c ∷ codes s

-- `==` on texts.
unfoldable pub equal : Str → Str → Bool
equal [] [] = true
equal (c ∷ s) (d ∷ t) = c == d && equal s t
equal _ _ = false

-- `char::is_ascii`, `char::is_whitespace`.
abbrev pub is_ascii : ℕ → Bool
is_ascii c = ltb c 128

unfoldable pub is_whitespace : ℕ → Bool
is_whitespace c =
    (leb 9 c && leb c 13)
    || c == 32
    || c == 0x85
    || c == 0xA0
    || c == 0x1680
    || (leb 0x2000 c && leb c 0x200A)
    || c == 0x2028
    || c == 0x2029
    || c == 0x202F
    || c == 0x205F
    || c == 0x3000

-- `str::trim_start`, `str::trim_end` and `str::trim`.
unfoldable pub trim_start : Str → Str
trim_start [] = []
trim_start (c ∷ s) = if is_whitespace c then trim_start s else c ∷ s

unfoldable pub trim_end : Str → Str
trim_end [] = []
trim_end (c ∷ s) = let r = trim_end s in if is_empty r && is_whitespace c then [] else c ∷ r

unfoldable pub trim : Str → Str
unfolding trim_start trim_end
trim s = trim_end (trim_start s)

abbrev pub push_head : ℕ → List Str → List Str
push_head c [] = (c ∷ []) ∷ []
push_head c (p ∷ ps) = (c ∷ p) ∷ ps

-- `str::split` by a predicate on characters: one more part than there are separators.
unfoldable pub split : (ℕ → Bool) → Str → List Str
split sep [] = [] ∷ []
split sep (c ∷ s) = let rest = split sep s in if sep c then [] ∷ rest else push_head c rest

abbrev pub cons_fst : ℕ → Str × Str → Str × Str
cons_fst c (a, b) = (c ∷ a, b)

-- The texts before and after the first separator: `splitn(2, …)` with two parts, or `find` and the
-- two slices.
unfoldable pub split_once : (ℕ → Bool) → Str → Option (Str × Str)
split_once sep [] = none
split_once sep (c ∷ s) =
    let rest = Option.map (cons_fst c) (split_once sep s) in if sep c then some ([], s) else rest

-- The same at the last separator, for `rfind`.
unfoldable pub rsplit_once : (ℕ → Bool) → Str → Option (Str × Str)
rsplit_once sep [] = none
rsplit_once sep (c ∷ s) = elim (rsplit_once sep s) [
  | some (a, b) ↦ some (c ∷ a, b)
  | none ↦ if sep c then some ([], s) else none
]

abbrev nonempty_parts : List Str → List Str
nonempty_parts [] = []
nonempty_parts (p ∷ ps) = let rest = nonempty_parts ps in if is_empty p then rest else p ∷ rest

-- `str::split_whitespace`.
unfoldable pub split_whitespace : Str → List Str
split_whitespace s = nonempty_parts (split is_whitespace s)

-- `str::strip_prefix`.
unfoldable pub strip_prefix : Str → Str → Option Str
strip_prefix [] s = some s
strip_prefix (p ∷ ps) [] = none
strip_prefix (p ∷ ps) (c ∷ s) = if p == c then strip_prefix ps s else none

unfoldable pub starts_with : Str → Str → Bool
starts_with [] s = true
starts_with (p ∷ ps) [] = false
starts_with (p ∷ ps) (c ∷ s) = p == c && starts_with ps s

-- `s.ends_with(p)`, written `ends_with p s`: some suffix of `s` is `p`.
unfoldable pub ends_with : Str → Str → Bool
unfolding equal
ends_with p [] = equal p []
ends_with p (c ∷ s) = equal p (c ∷ s) || ends_with p s

-- `s.contains(p)`, written `contains p s`.
unfoldable pub contains : Str → Str → Bool
unfolding starts_with
contains p [] = starts_with p []
contains p (c ∷ s) = starts_with p (c ∷ s) || contains p s

-- The number of bytes of a character, and of a text, in UTF-8: `String::len`.
abbrev pub utf8_width : ℕ → ℕ
utf8_width c = if ltb c 0x80 then 1 else if ltb c 0x800 then 2 else if ltb c 0x10000 then 3 else 4

unfoldable pub byte_len : Str → ℕ
byte_len [] = 0
byte_len (c ∷ s) = utf8_width c + byte_len s
