-- ===== src/Http/Parsed.antt =====
-- What is true of every request that `parse_http_request` of src/utils.rs returns.
use tinyproxy_rust.Prelude.{
  ℕ, ◌≡◌, ◌≢◌, refl, subst, inl, inr, false, some, List, [], ◌∷◌, ◌++◌, is_empty, All, All-imp,
  All-both, All-of_append_left, All-of_append_right, Bool-cases, Option-cases, arith,
}
use tinyproxy_rust.Prelude.Results.{ok, ok-inj}
use tinyproxy_rust.Std.Text.{
  Str, codes, is_whitespace, trim, split_once, split_whitespace, strip_prefix, equal,
}
use tinyproxy_rust.Std.Text.Laws.{IsFree, split_once-eq-some}
use tinyproxy_rust.Std.Text.Trim.{
  IsWord, trim-All, trim_idem, split_whitespace-IsWord, split_whitespace-All,
}
use tinyproxy_rust.Std.Text.Lines.{is_newline, lines}
use tinyproxy_rust.Std.Text.Lines.Laws.{lines-All, lines-IsFree}
use tinyproxy_rust.Std.Text.Case.{Unicode, to_lowercase}
use tinyproxy_rust.Std.Text.Case.Laws.{
  CaseLaws, to_lowercase_idem, trim-to_lowercase, to_lowercase-All_ne, to_lowercase-IsScalar,
}
use tinyproxy_rust.Std.HashMap.{insert}
use tinyproxy_rust.Std.Utf8.{Bytes, from_utf8_lossy}
use tinyproxy_rust.Std.Utf8.RoundTrip.{IsScalar, from_utf8_lossy-IsScalar}
use tinyproxy_rust.Http.{
  HttpRequest, is_colon, parse_version, add_header, parse_headers, parse_parts, parse_lines,
  parse_http_request,
}

-- A character of a line.
abbrev pub IsPlain : ℕ → Type 0
IsPlain c = IsScalar c × (is_newline c ≡ false)

-- A text between blanks, which the request line can carry.
abbrev pub IsToken : Str → Type 0
IsToken s = IsWord s × All IsPlain s

abbrev pub IsValue : Str → Type 0
IsValue v = All IsPlain v × (trim v ≡ v)

module _ ⦃u : Unicode⦄ where
  abbrev pub IsName : Str → Type 0
  IsName n = All IsPlain n × IsFree is_colon n × (trim n ≡ n) × (to_lowercase n ≡ n)

  abbrev pub IsHeader : Str × Str → Type 0
  IsHeader (n, v) = IsName n × IsValue v

  pub record IsRequest (r : HttpRequest) : Type 0 where
    pub method : IsToken r.method
    pub uri : IsToken r.uri
    pub version : IsFree is_whitespace r.version × All IsPlain r.version
    pub headers : All IsHeader r.headers

insert-All :
    (P Q : Str → Type 0) (k v : Str) (m : List (Str × Str))
    → P k
    → Q v
    → All (λ e. P e.0 × Q e.1) m
    → All (λ e. P e.0 × Q e.1) (insert k v m)
unfolding insert
insert-All P Q k v [] p q h = ((p, q), tt)
insert-All P Q k v ((j, w) ∷ m) p q (x, h) = elim (Bool-cases (equal j k)) [
  | inl y ↦ rw y ((x.0, q), h)
  | inr y ↦ rw y (x, insert-All P Q k v m p q h)
]

strip_prefix-All :
    (P : ℕ → Type 0) (p s rest : Str) → strip_prefix p s ≡ some rest → All P s → All P rest
unfolding strip_prefix
strip_prefix-All P [] s rest e h = subst (All P) (ground arith) h
strip_prefix-All P (c ∷ p) [] rest e h = cc
strip_prefix-All P (c ∷ p) (d ∷ s) rest e (_, h) = strip_prefix-All P p s rest (ground arith) h

parse_version-All :
    (P : ℕ → Type 0) (s : Str) → All P (codes "1.1") → All P s → All P (parse_version s)
unfolding parse_version
parse_version-All P s d h = elim (Option-cases (strip_prefix (codes "HTTP/") s)) [
  | inl x ↦ rw (x, parse_version) d
  | inr (rest, x) ↦ rw (x, parse_version) (strip_prefix-All P (codes "HTTP/") s rest x h)
]

module _ ⦃u : Unicode⦄ (laws : CaseLaws) where
  lowercase-IsName : (a : Str) → All IsPlain a → IsFree is_colon a → IsName (to_lowercase (trim a))
  lowercase-IsName a h k =
      let t = trim a in
      let plain = trim-All IsPlain a h in
      let scalar = to_lowercase-IsScalar laws t (All-imp IsPlain IsScalar t (λ c p. p.0) plain) in
      let lines =
        to_lowercase-All_ne laws b'\n' (inr refl) t
          (All-imp IsPlain _ t (λ c p. ground (arith, p.1)) plain) in
      let colons =
        to_lowercase-All_ne laws b':' (inl refl) t
          (All-imp (λ c. is_colon c ≡ false) _ t (λ c p. ground (arith, p)) (trim-All _ a k)) in
      (
        All-both IsScalar (λ c. is_newline c ≡ false) _ scalar
            (All-imp (λ c. c ≢ b'\n') _ _ (λ c p. ground (arith, p)) lines),
        All-imp (λ c. c ≢ b':') _ _ (λ c p. ground (arith, p)) colons,
        trim-to_lowercase laws t (trim_idem a),
        to_lowercase_idem laws t,
      )

  add_header-All :
      (m : List (Str × Str)) (line : Str)
      → All IsPlain line
      → All IsHeader m
      → All IsHeader (add_header m line)
  unfolding add_header
  add_header-All m line h k = elim (Option-cases (split_once is_colon line)) [
    | inl x ↦ rw (x, add_header) k
    | inr ((a, b), x) ↦
        let (c, joined, _, free) = split_once-eq-some is_colon line a b x in
        let plain : All IsPlain (a ++ c ∷ b) = subst (All IsPlain) joined h in
        rw (x, add_header)
          (insert-All IsName IsValue _ _ m
            (lowercase-IsName a (All-of_append_left IsPlain a (c ∷ b) plain) free)
            (trim-All IsPlain b (All-of_append_right IsPlain a (c ∷ b) plain).1, trim_idem b) k)
  ]

  parse_headers-All :
      (m : List (Str × Str)) (ls : List Str)
      → All (All IsPlain) ls
      → All IsHeader m
      → All IsHeader (parse_headers m ls)
  unfolding parse_headers
  parse_headers-All m [] h k = k
  parse_headers-All m (l ∷ ls) (p, h) k = elim (Bool-cases (is_empty l)) [
    | inl x ↦ rw x k
    | inr x ↦ rw x (parse_headers-All (add_header m l) ls h (add_header-All m l p k))
  ]

  parse_parts-IsRequest :
      (ws ls : List Str) (r : HttpRequest)
      → All IsToken ws
      → All (All IsPlain) ls
      → parse_parts ws ls ≡ ok r
      → IsRequest r
  unfolding parse_parts
  parse_parts-IsRequest (m ∷ w ∷ v ∷ []) ls r (hm, (hw, (hv, _))) k e =
      subst IsRequest (ok-inj e) (record {
        method = hm;
        uri = hw;
        version = (
          parse_version-All (λ c. is_whitespace c ≡ false) v
              (unfold is_whitespace in (refl, (refl, (refl, tt)))) hv.0.0,
          parse_version-All IsPlain v
              (
                (inl (omega arith), refl),
                ((inl (omega arith), refl), ((inl (omega arith), refl), tt)),
              )
              hv.1,
        );
        headers = parse_headers-All [] ls k tt;
      })
  parse_parts-IsRequest _ ls r h k e = cc

  parse_lines-IsRequest :
      (ls : List Str) (r : HttpRequest) → All (All IsPlain) ls → parse_lines ls ≡ ok r → IsRequest r
  unfolding parse_lines
  parse_lines-IsRequest [] r h e = cc
  parse_lines-IsRequest (l ∷ ls) r (p, h) e =
      let plain = split_whitespace-All IsPlain l p in
      let tokens =
        All-both IsWord (All IsPlain) _ (split_whitespace-IsWord l)
          (All-imp (λ w. All IsPlain w × (w ≢ [])) (All IsPlain) _ (λ w q. q.0) plain) in
      parse_parts-IsRequest (split_whitespace l) ls r tokens h e

  -- A request that the parser returns has a method and a target with no blank or line feed in
  -- them, and header names and values that are trimmed, in lower case, and fit on one line.
  pub parse_http_request-IsRequest :
      (bytes : Bytes) (r : HttpRequest) → parse_http_request bytes ≡ ok r → IsRequest r
  unfolding parse_http_request
  parse_http_request-IsRequest bytes r e =
      let text = from_utf8_lossy bytes in
      let scalar = lines-All IsScalar text (from_utf8_lossy-IsScalar bytes) in
      let plain =
        All-imp (λ l. All IsScalar l × IsFree is_newline l) (All IsPlain) (lines text)
          (λ l p. All-both IsScalar (λ c. is_newline c ≡ false) l p.0 p.1)
          (All-both (All IsScalar) (IsFree is_newline) (lines text) scalar (lines-IsFree text)) in
      parse_lines-IsRequest (lines text) r plain e
