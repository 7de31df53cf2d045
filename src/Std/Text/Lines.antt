-- ===== src/Std/Text/Lines.antt =====
-- `str::lines`: the parts between line feeds, each with one carriage return before the line feed
-- dropped, and no last part if it is empty.
pub mod Laws
use tinyproxy_rust.Prelude.{ℕ, Bool, List, [], ◌∷◌, is_empty, ◌==◌, if◌then◌else◌}
use tinyproxy_rust.Std.Text.{Str, split}

strip_cr : Str → Str
strip_cr [] = []
strip_cr (c ∷ []) = if c == b'\r' then [] else c ∷ []
strip_cr (c ∷ d ∷ s) = c ∷ strip_cr (d ∷ s)

finish_lines : List Str → List Str
finish_lines [] = []
finish_lines (last ∷ []) = if is_empty last then [] else last ∷ []
finish_lines (l ∷ m ∷ ls) = strip_cr l ∷ finish_lines (m ∷ ls)

abbrev pub is_newline : ℕ → Bool
is_newline c = c == b'\n'

unfoldable pub lines : Str → List Str
unfolding finish_lines strip_cr
lines s = finish_lines (split is_newline s)
