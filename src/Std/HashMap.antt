-- ===== src/Std/HashMap.antt =====
-- `HashMap` as an association list: `insert` replaces the value of a key that is there, and `remove`
-- drops it. The order in which a map is walked is any order, see `Iterates`.
use tinyproxy_rust.Prelude.{
  ◌≡◌, refl, sym, ◌∙◌, subst, All, All-imp, Bool-cases, inl, inr, Option, none, some, List, [], ◌∷◌,
  if◌then◌else◌, arith,
}
use tinyproxy_rust.Std.Text.{Str, equal}
use tinyproxy_rust.Std.Text.Laws.{equal_iff, equal_refl}

module _ {ℓ} {V : Type ℓ} where
  unfoldable pub get : Str → List (Str × V) → Option V
  get k [] = none
  get k ((j, v) ∷ m) = if equal j k then some v else get k m

  unfoldable pub insert : Str → V → List (Str × V) → List (Str × V)
  insert k v [] = (k, v) ∷ []
  insert k v ((j, w) ∷ m) = if equal j k then (j, v) ∷ m else (j, w) ∷ insert k v m

  unfoldable pub remove : Str → List (Str × V) → List (Str × V)
  remove k [] = []
  remove k ((j, v) ∷ m) = let rest = remove k m in if equal j k then rest else (j, v) ∷ rest

  unfoldable pub insert_all : List (Str × V) → List (Str × V) → List (Str × V)
  insert_all m [] = m
  insert_all m ((k, v) ∷ es) = insert_all (insert k v m) es

  pub get-insert :
      (k j : Str) (v : V) (m : List (Str × V))
      → get j (insert k v m) ≡ (if equal k j then some v else get j m)
  unfolding get insert
  get-insert k j v [] = refl
  get-insert k j v ((i, w) ∷ m) =
      ground (arith, equal_iff k j, equal_iff i k, equal_iff i j, get-insert k j v m)

  pub get-remove :
      (k j : Str) (m : List (Str × V)) → get j (remove k m) ≡ (if equal k j then none else get j m)
  unfolding get remove
  get-remove k j [] = ground arith
  get-remove k j ((i, v) ∷ m) =
      ground (arith, get-remove k j m, equal_iff i k, equal_iff i j, equal_iff k j)

  -- No key stands twice.
  abbrev pub Distinct : List (Str × V) → Type ℓ
  Distinct [] = Unit
  Distinct ((k, v) ∷ m) = (get k m ≡ none) × Distinct m

-- `es` lists the entries of `m`, each once, in some order.
pub record Iterates {ℓ} {V : Type ℓ} (es m : List (Str × V)) : Type ℓ where
  pub distinct : Distinct es
  pub same : (k : Str) → get k es ≡ get k m

module _ {ℓ} {V : Type ℓ} where
  abbrev pub or_else : Option V → Option V → Option V
  or_else none b = b
  or_else (some a) b = some a

  pub get-insert_all :
      (m es : List (Str × V)) (k : Str)
      → Distinct es
      → get k (insert_all m es) ≡ or_else (get k es) (get k m)
  unfolding get insert_all
  get-insert_all m [] k d = refl
  get-insert_all m ((j, v) ∷ es) k (fresh, d) =
      ground (arith, get-insert_all (insert j v m) es k d, get-insert j k v m, equal_iff j k, fresh)

  get-All :
      (P : Str × V → Type 0) (m : List (Str × V)) (k : Str) (v : V)
      → All P m
      → get k m ≡ some v
      → P (k, v)
  unfolding get
  get-All P [] k v h e = cc
  get-All P ((j, w) ∷ m) k v (p, h) e = elim (Bool-cases (equal j k)) [
    | inl x ↦
        let key : j ≡ k = (equal_iff j k).0 x in
        let value : w ≡ v = ground (arith, x, e) in
        subst (λ i. P (i, v)) key (subst (λ i. P (j, i)) value p)
    | inr x ↦ get-All P m k v h (ground (arith, x, e))
  ]

  get_self : (es : List (Str × V)) → Distinct es → All (λ e. get e.0 es ≡ some e.1) es
  unfolding get
  get_self [] d = tt
  get_self ((j, v) ∷ es) (fresh, d) = (
    rw (equal_refl j),
    All-imp (λ e. get e.0 es ≡ some e.1) _ es
        (λ e found. elim (Bool-cases (equal j e.0)) [
          | inl x ↦ cc (subst (λ i. get i es ≡ none) ((equal_iff j e.0).0 x) fresh, found)
          | inr x ↦ rw x found
        ])
        (get_self es d),
  )

  -- What holds of every entry of a map holds of every entry that a walk over it meets.
  pub Iterates-All :
      (P : Str × V → Type 0) (es m : List (Str × V)) → Iterates es m → All P m → All P es
  Iterates-All P es m it h =
      All-imp (λ e. get e.0 es ≡ some e.1) P es
        (λ e found. get-All P m e.0 e.1 h (sym (it.same e.0) ∙ found)) (get_self es it.distinct)
