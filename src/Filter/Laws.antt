-- ===== src/Filter/Laws.antt =====
-- Which targets a domain rule of src/filter.rs matches.
use tinyproxy_rust.Prelude.{
  ◌≡◌, ◌≢◌, ◌↔◌, ◌⊎◌, refl, ap, sym, ◌∙◌, Bool, true, false, Bool-cases, inl, inr, ◌++◌, ◌∷◌, some,
  none, Option-cases, arith,
}
use tinyproxy_rust.Prelude.Results.{Result, ok, err, ok-inj}
use tinyproxy_rust.Std.Text.{Str, codes, equal, ends_with, starts_with}
use tinyproxy_rust.Std.Text.Laws.{
  IsPart, contains_iff, equal_iff, starts_with_iff, ends_with-of_suffix, ends_with-suffix,
}
use tinyproxy_rust.Std.Text.Case.{Unicode, to_lowercase}
use tinyproxy_rust.External.{Url, Crates}
use tinyproxy_rust.Filter.{fold_case, host_matches, matches_url, matches_rule, domain}

-- With a leading dot, a domain has the host that is named behind it and every host that ends in the
-- dot and that name; else it has the host of that name alone.
abbrev pub InDomain : Str → Str → Type 0
InDomain d host =
    ((rest : Str) × (d ≡ b'.' ∷ rest) × ((host ≡ rest) ⊎ ((a : Str) × (host ≡ a ++ b'.' ∷ rest))))
    ⊎ (((rest : Str) → d ≢ b'.' ∷ rest) × (host ≡ d))

-- A text as a filter compares it.
abbrev pub folded : ⦃u : Unicode⦄ → Bool → Str → Str
folded true s = s
folded false s = to_lowercase s

pub fold_case-folded :
    ⦃u : Unicode⦄ → ⦃x : Crates⦄ → (b : Bool) (s : Str) → fold_case b s ≡ folded b s
fold_case-folded true s = refl
fold_case-folded false s = refl

-- The target is a URL with a host of the domain, or it is no URL and the domain stands in it.
abbrev pub InTarget : ⦃u : Unicode⦄ → ⦃x : Crates⦄ → Bool → Str → Str → Type 0
InTarget ⦃x = x⦄ b d url =
    ((parsed : Url) × (host : Str) × (x.url_parse url ≡ ok parsed)
      × (parsed.host_str ≡ some host)
      × InDomain d (folded b host))
    ⊎ ((e : Str) × (x.url_parse url ≡ err e) × IsPart d url)

lost :
    (p : Url) (host : Str) (parsed : Url)
    → ◌≡◌ {A = Result Str Url} (ok parsed) (ok p)
    → p.host_str ≡ some host
    → ¬ (parsed.host_str ≡ none)
lost p host parsed e s n = cc (ap (λ k. k.host_str) (ok-inj e), s, n)

module _ ⦃u : Unicode⦄ ⦃x : Crates⦄ where
  dotted_iff :
      (d host : Str)
      → (host_matches (b'.' ∷ d) host ≡ true) ↔ ((host ≡ d) ⊎ ((a : Str) × (host ≡ a ++ b'.' ∷ d)))
  unfolding host_matches starts_with
  dotted_iff d host = (
    (λ e. elim (Bool-cases (ends_with (b'.' ∷ d) host)) [
      | inl y ↦ inr (ends_with-suffix (b'.' ∷ d) host y)
      | inr y ↦ inl ((equal_iff host d).0 (ground (arith, y, e)))
    ]),
    (λ h. elim h [
      | inl e ↦ ground (arith, (equal_iff host d).1 e)
      | inr (a, e) ↦ ground (arith, ap (ends_with (b'.' ∷ d)) e, ends_with-of_suffix (b'.' ∷ d) a)
    ]),
  )

  undotted : (d host : Str) → starts_with (codes ".") d ≡ false → host_matches d host ≡ equal host d
  unfolding host_matches
  undotted d host n = rw n refl

  host_matches_iff : (d host : Str) → (host_matches d host ≡ true) ↔ InDomain d host
  host_matches_iff d host = elim (Bool-cases (starts_with (codes ".") d)) [
    | inl y ↦
        let (rest, eq) = (starts_with_iff (codes ".") d).0 y in
        (
          (λ e.
              inl
                (rest, eq, (dotted_iff rest host).0 (sym (ap (λ k. host_matches k host) eq) ∙ e))),
          (λ h. elim h [
            | inl (r, eq', h') ↦ ap (λ k. host_matches k host) eq' ∙ (dotted_iff r host).1 h'
            | inr (bare, _) ↦ absurd (bare rest eq)
          ]),
        )
    | inr n ↦
        let bare : (r : Str) → d ≢ b'.' ∷ r =
          λ r eq. ground (arith, n, (starts_with_iff (codes ".") d).1 (r, eq)) in
        (
          (λ e. inr (bare, (equal_iff host d).0 (sym (undotted d host n) ∙ e))),
          (λ h. elim h [
            | inl (r, eq, _) ↦ absurd (bare r eq)
            | inr (_, e) ↦ undotted d host n ∙ (equal_iff host d).1 e
          ]),
        )
  ]

  abbrev OfUrl : Bool → Str → Str → Result Str Url → Type 0
  OfUrl b d url r =
      ((parsed : Url) × (host : Str) × (r ≡ ok parsed)
        × (parsed.host_str ≡ some host)
        × InDomain d (folded b host))
      ⊎ ((e : Str) × (r ≡ err e) × IsPart d url)

  of_host :
      (b : Bool) (d url host : Str) (parsed : Url)
      → parsed.host_str ≡ some host
      → matches_url b d url (ok parsed) ≡ host_matches d (folded b host)
  unfolding matches_url
  of_host b d url host parsed h = rw h (ap (host_matches d) (fold_case-folded b host))

  no_host :
      (b : Bool) (d url : Str) (parsed : Url)
      → parsed.host_str ≡ none
      → matches_url b d url (ok parsed) ≡ false
  unfolding matches_url
  no_host b d url parsed h = rw h refl

  matches_url_iff :
      (b : Bool) (d url : Str) (r : Result Str Url)
      → (matches_url b d url r ≡ true) ↔ OfUrl b d url r
  matches_url_iff b d url (err e) =
      let (to, from) = contains_iff d url in
      (
        (λ y. inr (e, refl, to (unfold matches_url in y))),
        (λ h. elim h [
          | inl (p, host, n, _, _) ↦ cc n
          | inr (_, _, part) ↦ (unfold matches_url in from part)
        ]),
      )
  matches_url_iff b d url (ok parsed) = elim (Option-cases parsed.host_str) [
    | inl n ↦ (
      (λ y. cc (no_host b d url parsed n, y)),
      (λ h. elim h [
        | inl (p, host, e, s, _) ↦ absurd (lost p host parsed e s n)
        | inr (_, e, _) ↦ cc e
      ]),
    )
    | inr (host, s) ↦ (
      (λ y. inl (
        parsed,
        host,
        refl,
        s,
        (host_matches_iff d (folded b host)).0 (sym (of_host b d url host parsed s) ∙ y),
      )),
      (λ h. elim h [
        | inl (p, host', e, s', has) ↦
            let same : p ≡ parsed = sym (ok-inj e) in
            of_host b d url host' parsed (sym (ap (λ k. k.host_str) same) ∙ s')
            ∙ (host_matches_iff d (folded b host')).1 has
        | inr (_, e, _) ↦ cc e
      ]),
    )
  ]

  -- For every domain, target and case rule: a domain rule matches exactly when the target is a URL with
  -- a host of the domain, the host in lower case unless the filter is case-sensitive, or it is no URL
  -- and the domain stands somewhere in it.
  pub matches_rule-domain_iff :
      (b : Bool) (d url : Str) → (matches_rule b (domain d) url ≡ true) ↔ InTarget b d url
  unfolding matches_rule
  matches_rule-domain_iff b d url = matches_url_iff b d url (x.url_parse url)
