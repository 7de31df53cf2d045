-- ===== src/Http/Names/Sanitize.antt =====
-- What `sanitize_header_value` of src/utils.rs leaves.
use tinyproxy_rust.Prelude.{
  ℕ, ◌≤◌, ◌≡◌, ◌↔◌, refl, subst, ap, if_intro, true, not, ◌&&◌, [], ◌∷◌, All, arith,
}
use tinyproxy_rust.Std.Text.{Str, is_ascii}
use tinyproxy_rust.Http.Names.{is_ascii_control, sanitize_header_value}

-- From the blank to the tilde; a line break is no such character.
abbrev pub IsPrintable : ℕ → Type 0
IsPrintable c = (0x20 ≤ c) × (c ≤ 0x7E)

keeps_iff : (c : ℕ) → ((is_ascii c && not (is_ascii_control c)) ≡ true) → IsPrintable c
keeps_iff c e = (ground (arith, e), ground (arith, e))

printable_kept : (c : ℕ) → IsPrintable c → (is_ascii c && not (is_ascii_control c)) ≡ true
printable_kept c (low, high) = ground (arith, low, high)

sanitize_header_value-IsPrintable : (s : Str) → All IsPrintable (sanitize_header_value s)
unfolding sanitize_header_value
sanitize_header_value-IsPrintable [] = tt
sanitize_header_value-IsPrintable (c ∷ s) =
    if_intro (All IsPrintable) (is_ascii c && not (is_ascii_control c)) _ _
      (λ y. (keeps_iff c y, sanitize_header_value-IsPrintable s))
      (λ _. sanitize_header_value-IsPrintable s)

-- The printable characters of `s` and no others, in their order.
pub data Picks : Str → Str → Type 0 where
  done : Picks [] []
  kept : {c : ℕ} {s t : Str} → IsPrintable c → Picks s t → Picks (c ∷ s) (c ∷ t)
  left : {c : ℕ} {s t : Str} → ¬ IsPrintable c → Picks s t → Picks (c ∷ s) t

Picks-sanitize : (s : Str) → Picks s (sanitize_header_value s)
unfolding sanitize_header_value
Picks-sanitize [] = done
Picks-sanitize (c ∷ s) =
    if_intro (Picks (c ∷ s)) (is_ascii c && not (is_ascii_control c)) _ _
      (λ y. kept (keeps_iff c y) (Picks-sanitize s))
      (λ n. left (λ p. cc (printable_kept c p, n)) (Picks-sanitize s))

Picks-unique : {s t r : Str} → Picks s t → Picks s r → t ≡ r
Picks-unique done done = refl
Picks-unique (kept {c} p more) (kept q rest) = ap (◌∷◌ c) (Picks-unique more rest)
Picks-unique (kept p more) (left n rest) = absurd (n p)
Picks-unique (left n more) (kept p rest) = absurd (n p)
Picks-unique (left n more) (left k rest) = Picks-unique more rest

-- What is left of a header value is its printable ASCII characters, in their order: no control
-- character, so no line break, and nothing outside ASCII.
pub sanitize_header_value_iff : (s t : Str) → (sanitize_header_value s ≡ t) ↔ Picks s t
sanitize_header_value_iff s t =
    ((λ e. subst (Picks s) e (Picks-sanitize s)), (λ p. Picks-unique (Picks-sanitize s) p))
