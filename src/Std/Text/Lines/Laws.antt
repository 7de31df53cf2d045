-- ===== src/Std/Text/Lines/Laws.antt =====
-- Laws of `lines`.
use tinyproxy_rust.Prelude.{
  ℕ, ◌≡◌, refl, ap, ◌∙◌, sym, ◌≢◌, false, List, [], ◌∷◌, ◌++◌, All, All-append, append_assoc,
  Bool-cases, inl, inr, ◌==◌,
}
use tinyproxy_rust.Std.Text.{Str, split}
use tinyproxy_rust.Std.Text.Laws.{IsFree, split-at, split-ne_nil, split-All, split-IsFree}
use tinyproxy_rust.Std.Text.Lines.{strip_cr, finish_lines, is_newline, lines}

strip_cr-concat : (s : Str) → strip_cr (s ++ b'\r' ∷ []) ≡ s
unfolding strip_cr
strip_cr-concat [] = refl
strip_cr-concat (c ∷ []) = refl
strip_cr-concat (c ∷ d ∷ s) = ap (◌∷◌ c) (strip_cr-concat (d ∷ s))

finish_lines-cons :
    (l : Str) (ls : List Str) → ls ≢ [] → finish_lines (l ∷ ls) ≡ strip_cr l ∷ finish_lines ls
unfolding finish_lines
finish_lines-cons l [] h = absurd (h refl)
finish_lines-cons l (m ∷ ls) h = refl

-- A line with no line feed, ended as the protocol ends lines, is the first of the lines.
pub lines-crlf :
    (l rest : Str) → IsFree is_newline l → lines (l ++ (b'\r' ∷ b'\n' ∷ rest)) ≡ l ∷ lines rest
unfolding lines
lines-crlf l rest h =
    let whole : l ++ (b'\r' ∷ b'\n' ∷ rest) ≡ (l ++ b'\r' ∷ []) ++ b'\n' ∷ rest =
      sym (append_assoc l (b'\r' ∷ []) (b'\n' ∷ rest)) in
    let free : IsFree is_newline (l ++ b'\r' ∷ []) =
      All-append (λ c. is_newline c ≡ false) l (b'\r' ∷ []) h (refl, tt) in
    ap (λ t. finish_lines (split is_newline t)) whole
    ∙ ap finish_lines (split-at is_newline (l ++ b'\r' ∷ []) b'\n' rest free refl)
    ∙ finish_lines-cons _ _ (split-ne_nil is_newline rest)
    ∙ ap (λ t. t ∷ finish_lines (split is_newline rest)) (strip_cr-concat l)

module _ (P : ℕ → Type 0) where
  strip_cr-All : (s : Str) → All P s → All P (strip_cr s)
  unfolding strip_cr
  strip_cr-All [] h = tt
  strip_cr-All (c ∷ []) h = elim (Bool-cases (c == b'\r')) [ inl x ↦ rw x tt | inr x ↦ rw x h ]
  strip_cr-All (c ∷ d ∷ s) (p, h) = (p, strip_cr-All (d ∷ s) h)

  finish_lines-All : (ls : List Str) → All (All P) ls → All (All P) (finish_lines ls)
  unfolding finish_lines
  finish_lines-All [] h = tt
  finish_lines-All ([] ∷ []) h = tt
  finish_lines-All ((c ∷ s) ∷ []) h = h
  finish_lines-All (l ∷ m ∷ ls) (p, h) = (strip_cr-All l p, finish_lines-All (m ∷ ls) h)

  -- What holds of every character holds of those of each line.
  pub lines-All : (s : Str) → All P s → All (All P) (lines s)
  unfolding lines
  lines-All s h = finish_lines-All _ (split-All is_newline P s h)

-- No line holds a line feed.
pub lines-IsFree : (s : Str) → All (IsFree is_newline) (lines s)
unfolding lines
lines-IsFree s = finish_lines-All (λ c. is_newline c ≡ false) _ (split-IsFree is_newline s)
