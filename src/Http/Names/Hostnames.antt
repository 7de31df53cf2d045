-- ===== src/Http/Names/Hostnames.antt =====
-- Which texts `is_valid_hostname` of src/utils.rs takes for host names.
use tinyproxy_rust.Prelude.{
  ℕ, ◌≤◌, ◌≡◌, ◌≢◌, ◌↔◌, refl, ap, sym, subst, ◌∙◌, inl, inr, Bool, true, false, not, ◌||◌,
  Bool-cases, List, [], ◌∷◌, ◌++◌, All, All-imp, All-of_all, all-of_All, all, is_empty, arith, ltb,
  ◌==◌, if◌then◌else◌,
}
use tinyproxy_rust.Std.Text.{Str, codes, byte_len, split, push_head, starts_with, ends_with}
use tinyproxy_rust.Std.Text.Laws.{
  IsFree, split-at, split_undivided, split-ne_nil, ends_with-of_suffix, ends_with-suffix,
}
use tinyproxy_rust.Std.Text.Case.{Unicode, is_alphanumeric}
use tinyproxy_rust.Http.Names.{valid_part, valid_parts, is_valid_hostname}

abbrev is_dot : ℕ → Bool
is_dot c = c == b'.'

-- Labels with a dot between two.
abbrev pub join : List Str → Str
join [] = []
join (a ∷ []) = a
join (a ∷ b ∷ more) = a ++ b'.' ∷ join (b ∷ more)

join-nil : (ps : List Str) → ps ≢ [] → join ([] ∷ ps) ≡ b'.' ∷ join ps
join-nil [] ne = absurd (ne refl)
join-nil (p ∷ ps) ne = refl

join-push_head : (c : ℕ) (ps : List Str) → ps ≢ [] → join (push_head c ps) ≡ c ∷ join ps
join-push_head c [] ne = absurd (ne refl)
join-push_head c (a ∷ []) ne = refl
join-push_head c (a ∷ b ∷ more) ne = refl

join-split : (s : Str) → join (split is_dot s) ≡ s
unfolding split
join-split [] = refl
join-split (c ∷ s) = elim (Bool-cases (is_dot c)) [
  | inl y ↦
      let dot : c ≡ b'.' = ground (arith, y) in
      rw y (
        join-nil (split is_dot s) (split-ne_nil is_dot s)
        ∙ (ap (◌∷◌ b'.') (join-split s) ∙ ap (λ d. d ∷ s) (sym dot)))
  | inr n ↦
      rw n (join-push_head c (split is_dot s) (split-ne_nil is_dot s) ∙ ap (◌∷◌ c) (join-split s))
]

split-join : (ls : List Str) → ls ≢ [] → All (IsFree is_dot) ls → split is_dot (join ls) ≡ ls
split-join [] ne h = absurd (ne refl)
split-join (a ∷ []) ne (h, _) = split_undivided is_dot a h
split-join (a ∷ b ∷ more) ne (h, hs) =
    split-at is_dot a b'.' (join (b ∷ more)) h refl
    ∙ ap (◌∷◌ a) (split-join (b ∷ more) (λ e. cc e) hs)

passed :
    (a b c d e : Bool)
    → (if a || b then false else if not c then false else if d || e then false else true) ≡ true
    → (((a ≡ false) × (b ≡ false)) × (c ≡ true)) × ((d ≡ false) × (e ≡ false))
passed a b c d e h = ground (arith, h)

passes :
    (a b c d e : Bool)
    → a ≡ false
    → b ≡ false
    → c ≡ true
    → d ≡ false
    → e ≡ false
    → (if a || b then false else if not c then false else if d || e then false else true) ≡ true
passes a b c d e p q r s t = ground (arith, p, q, r, s, t)

taken : (a b c : Bool) → (if a || b then false else c) ≡ true → (b ≡ false) × (c ≡ true)
taken a b c h = ground (arith, h)

takes : (a b c : Bool) → a ≡ false → b ≡ false → c ≡ true → (if a || b then false else c) ≡ true
takes a b c p q r = ground (arith, p, q, r)

not_empty : (s : Str) → s ≢ [] → is_empty s ≡ false
not_empty [] ne = absurd (ne refl)
not_empty (c ∷ s) ne = refl

starts_dash : (t : Str) → starts_with (codes "-") (b'-' ∷ t) ≡ true
unfolding starts_with
starts_dash t = refl

dash_first : (s : Str) → starts_with (codes "-") s ≡ true → (t : Str) × (s ≡ b'-' ∷ t)
unfolding starts_with
dash_first [] e = cc e
dash_first (c ∷ s) e = (s, ap (λ d. d ∷ s) (ground (arith, e)))

module _ ⦃u : Unicode⦄ where
  -- A letter or digit of any alphabet, or a dash.
  abbrev pub is_label_char : ℕ → Bool
  is_label_char c = is_alphanumeric c || c == b'-'

  pub record IsLabel (label : Str) : Type 0 where
    pub some_char : label ≢ []
    pub short : byte_len label ≤ 63
    pub chars : All (λ c. is_label_char c ≡ true) label
    pub no_first : (t : Str) → label ≢ b'-' ∷ t
    pub no_last : (t : Str) → label ≢ t ++ b'-' ∷ []

  valid_part-IsLabel : (part : Str) → valid_part part ≡ true → IsLabel part
  unfolding valid_part
  valid_part-IsLabel part e =
      let (((empty, long), chars), (first, last)) =
        passed (is_empty part) (ltb 63 (byte_len part)) (all is_label_char part)
          (starts_with (codes "-") part) (ends_with (codes "-") part) e in
      record {
        some_char = λ n. cc (sym empty ∙ ap is_empty n);
        short = ground (arith, long);
        chars = All-of_all is_label_char part chars;
        no_first = λ t n. cc (sym (ap (starts_with (codes "-")) n) ∙ first, starts_dash t);
        no_last = λ t n. cc (last, n, ends_with-of_suffix (b'-' ∷ []) t);
      }

  IsLabel-valid_part : (part : Str) → IsLabel part → valid_part part ≡ true
  unfolding valid_part
  IsLabel-valid_part part v =
      passes (is_empty part) (ltb 63 (byte_len part)) (all is_label_char part)
        (starts_with (codes "-") part) (ends_with (codes "-") part) (not_empty part v.some_char)
        (ground (arith, v.short)) (all-of_All is_label_char part v.chars)
        (elim (Bool-cases (starts_with (codes "-") part)) [
          | inl y ↦ (let (t, e) = dash_first part y in absurd (v.no_first t e))
          | inr n ↦ n
        ])
        (elim (Bool-cases (ends_with (codes "-") part)) [
          | inl y ↦ (let (t, e) = ends_with-suffix (b'-' ∷ []) part y in absurd (v.no_last t e))
          | inr n ↦ n
        ])

  label_char-ne_dot : (c : ℕ) → is_label_char c ≡ true → is_dot c ≡ false
  unfolding is_alphanumeric
  label_char-ne_dot c e = elim (Bool-cases (is_dot c)) [
    | inl y ↦ (let dot : c ≡ b'.' = ground (arith, y) in cc (sym e ∙ ap is_label_char dot))
    | inr n ↦ n
  ]

  IsLabel-IsFree : (label : Str) → IsLabel label → IsFree is_dot label
  IsLabel-IsFree label v =
      All-imp (λ c. is_label_char c ≡ true) (λ c. is_dot c ≡ false) label label_char-ne_dot v.chars

  valid_parts_iff : (ps : List Str) → (valid_parts ps ≡ true) ↔ All IsLabel ps
  unfolding valid_parts
  valid_parts_iff [] = (λ _. tt, λ _. refl)
  valid_parts_iff (p ∷ ps) =
      let (to, from) = valid_parts_iff ps in
      elim (Bool-cases (valid_part p)) [
        | inl y ↦ (
          (λ e. (
            valid_part-IsLabel p y,
            to (sym (ap (λ b. if b then valid_parts ps else false) y) ∙ e),
          )),
          (λ h. ap (λ b. if b then valid_parts ps else false) y ∙ from h.1),
        )
        | inr n ↦ ((λ e. cc (n, e)), (λ h. cc (n, IsLabel-valid_part p h.0)))
      ]

  labels-ne_nil : (ls : List Str) → ls ≢ [] → All IsLabel ls → is_empty (join ls) ≡ false
  labels-ne_nil [] ne h = absurd (ne refl)
  labels-ne_nil (a ∷ []) ne (v, _) = not_empty a v.some_char
  labels-ne_nil ((c ∷ a) ∷ b ∷ more) ne h = refl
  labels-ne_nil ([] ∷ b ∷ more) ne (v, _) = absurd (v.some_char refl)

  split-labels : (ls : List Str) → ls ≢ [] → All IsLabel ls → split is_dot (join ls) ≡ ls
  split-labels ls ne h = split-join ls ne (All-imp IsLabel (IsFree is_dot) ls IsLabel-IsFree h)

  -- A text is taken for a host name exactly when it has at most 253 bytes and is one label or more,
  -- joined by dots: each label has between 1 and 63 bytes, letters, digits and dashes only, and no
  -- dash at its start or end.
  pub is_valid_hostname_iff :
      (hostname : Str)
      → (is_valid_hostname hostname ≡ true) ↔ (
          (byte_len hostname ≤ 253)
          × ((ls : List Str) × (ls ≢ []) × (hostname ≡ join ls) × All IsLabel ls))
  unfolding is_valid_hostname
  is_valid_hostname_iff hostname =
      let checked = valid_parts (split is_dot hostname) in
      let (to, from) = valid_parts_iff (split is_dot hostname) in
      (
        (λ e.
            let (long, valid) = taken (is_empty hostname) (ltb 253 (byte_len hostname)) checked e in
            (
              ground (arith, long),
              (
                split is_dot hostname,
                split-ne_nil is_dot hostname,
                sym (join-split hostname),
                to valid,
              ),
            )),
        (λ (short, (ls, ne, joined, labels)).
            let parts = ap (split is_dot) joined ∙ split-labels ls ne labels in
            takes (is_empty hostname) (ltb 253 (byte_len hostname)) checked
              (ap is_empty joined ∙ labels-ne_nil ls ne labels) (ground (arith, short))
              (from (subst (All IsLabel) (sym parts) labels))),
      )
