-- ===== src/Config/Parse/Access.antt =====
-- Which access rules come from the file that `parse_config` of src/config.rs reads, and which clients
-- `AccessControl` of src/acl.rs then admits.
use tinyproxy_rust.Prelude.{
  ◌≡◌, ◌↔◌, ◌⊎◌, refl, ap, subst, ◌∙◌, Option, none, some, List, [], ◌∷◌, ◌++◌, is_empty, Some,
  arith, All, All-of_all, all, ◌||◌, Bool, not, inl, inr, Bool-cases, true, false, if◌then◌else◌,
}
use tinyproxy_rust.Prelude.Results.{ok}
use tinyproxy_rust.Std.Text.{Str, codes, trim, is_whitespace, starts_with, split_once, equal}
use tinyproxy_rust.Std.Text.Case.{Unicode, to_lowercase}
use tinyproxy_rust.Std.Text.Lines.{lines}
use tinyproxy_rust.Std.Text.Laws.{equal_iff}
use tinyproxy_rust.Std.HashMap.{get}
use tinyproxy_rust.Std.Net.{IpAddr, SocketAddr}
use tinyproxy_rust.Std.Net.Bounds.{IsAddr}
use tinyproxy_rust.Config.{Config, default}
use tinyproxy_rust.Config.Parse.{Key, keys, parse_config}
use tinyproxy_rust.Acl
use tinyproxy_rust.Acl.Access.{Covers, IsValid, is_allowed_iff}
use tinyproxy_rust.Config.Parse.Added.{
  Side, allowing, denying, is_of, known, gives, given, parse_lines-given,
}

-- No rule of the second list covers the address, and one of the first does, or no rule is valid.
abbrev pub Admits : IpAddr → List Str → List Str → Type 0
Admits ip allows denies =
    ¬ Some (Covers ip) denies
    × (Some (Covers ip) allows ⊎ (¬ Some IsValid allows × ¬ Some IsValid denies))

-- The word that a line of the side begins with.
abbrev pub word : Side → Str
word allowing = codes "allow"
word denying = codes "deny"

-- A key that gives to the side stands beside the word of the side.
abbrev has_word : Side → Str × Key → Bool
has_word side (name, key) = not (is_of side key) || equal name (word side)

abbrev found : Option Key → Str → Option (Key × Str)
found none value = none
found (some key) value = some (key, value)

no_other_word :
    (side : Side) (name : Str) (key : Key)
    → is_of side key ≡ true
    → equal name (word side) ≡ false
    → has_word side (name, key) ≡ true
    → ⊥
no_other_word side name key i n e = ground (arith, i, n, e)

keys_have_words : (side : Side) → all (has_word side) keys ≡ true
unfolding equal
keys_have_words allowing = refl
keys_have_words denying = refl

other_word :
    (side : Side) (k value : Str) (m : List (Str × Key))
    → All (λ e. has_word side e ≡ true) m
    → equal k (word side) ≡ false
    → gives side (found (get k m) value) ≡ []
unfolding get
other_word side k value [] h n = refl
other_word side k value ((name, key) ∷ m) (beside, h) n = elim (Bool-cases (equal name k)) [
  | inl y ↦
      let other : equal name (word side) ≡ false =
        ap (λ j. equal j (word side)) ((equal_iff name k).0 y) ∙ n in
      rw y (elim (Bool-cases (is_of side key)) [
        | inl i ↦ absurd (no_other_word side name key i other beside)
        | inr i ↦ rw i refl
      ])
  | inr z ↦ rw z (other_word side k value m h n)
]

found_word :
    (side : Side) (value : Str) → gives side (found (get (word side) keys) value) ≡ value ∷ []
unfolding get equal
found_word allowing value = refl
found_word denying value = refl

of_word :
    (side : Side) (k value : Str)
    → gives side (found (get k keys) value) ≡ (if equal k (word side) then value ∷ [] else [])
of_word side k value = elim (Bool-cases (equal k (word side))) [
  | inl y ↦ rw y (
      ap (λ j. gives side (found (get j keys) value)) ((equal_iff k (word side)).0 y)
      ∙ found_word side value)
  | inr n ↦
      rw n (other_word side k value keys (All-of_all (has_word side) keys (keys_have_words side)) n)
]

gives-found :
    (side : Side) (o : Option Key) (value : Str)
    → gives side (elim o [ none ↦ none | some k ↦ some (k, value) ]) ≡ gives side (found o value)
gives-found side none value = refl
gives-found side (some k) value = refl

module _ ⦃u : Unicode⦄ where
  -- The value of the parts of a line, if the first is the word of the side in any case.
  abbrev pub said : Side → Option (Str × Str) → List Str
  said side none = []
  said side (some (key, value)) =
      if equal (to_lowercase key) (word side) then trim value ∷ [] else []

  -- The values of the lines of a side, in their order: those of two words or more that are no comments
  -- and begin with its word.
  abbrev pub values : Side → List Str → List Str
  values side [] = []
  values side (line ∷ rest) =
      (if is_empty (trim line) || starts_with (codes "#") (trim line)
        then []
        else said side (split_once is_whitespace (trim line)))
      ++ values side rest

  gives-known :
      (side : Side) (parts : Option (Str × Str)) → gives side (known parts) ≡ said side parts
  gives-known side none = refl
  gives-known side (some (key, value)) =
      gives-found side (get (to_lowercase key) keys) (trim value)
      ∙ of_word side (to_lowercase key) (trim value)

  given-values : (side : Side) (ls : List Str) → given side ls ≡ values side ls
  given-values side [] = refl
  given-values side (line ∷ rest) =
      elim (is_empty (trim line) || starts_with (codes "#") (trim line))
        as (λ b.
          gives side (if b then none else known (split_once is_whitespace (trim line)))
            ++ given side rest
          ≡ (if b then [] else said side (split_once is_whitespace (trim line)))
            ++ values side rest) [
              | true ↦ given-values side rest
              | false ↦
                  ap (λ l. l ++ given side rest)
                    (gives-known side (split_once is_whitespace (trim line)))
                  ∙ ap (λ l. said side (split_once is_whitespace (trim line)) ++ l)
                      (given-values side rest)
            ]

  -- If the parser accepts a file, then its access rules are the values of its Allow lines and of its
  -- Deny lines, those that begin with that word in any case and are no comments, in their order, and a
  -- client whose address fits its type is admitted exactly when no Deny line covers its address and an
  -- Allow line does, or there is no valid rule of either kind.
  pub parse_config-is_allowed_iff :
      (content : Str) (c : Config) (addr : SocketAddr)
      → parse_config content ≡ ok c
      → IsAddr addr.ip
      → (c.allow ≡ values allowing (lines content))
        × (c.deny ≡ values denying (lines content))
        × ((Acl.is_allowed (Acl.new c) addr ≡ true)
            ↔ Admits addr.ip (values allowing (lines content)) (values denying (lines content)))
  unfolding parse_config
  parse_config-is_allowed_iff content c addr e h =
      let (set_allow, set_deny) = parse_lines-given (lines content) default c e in
      let allow = set_allow ∙ given-values allowing (lines content) in
      let deny = set_deny ∙ given-values denying (lines content) in
      let admitted = Acl.is_allowed (Acl.new c) addr ≡ true in
      (
        allow,
        deny,
        subst (λ allows. admitted ↔ Admits addr.ip allows (values denying (lines content))) allow
            (subst (λ denies. admitted ↔ Admits addr.ip c.allow denies) deny
              (is_allowed_iff c addr h)),
      )
