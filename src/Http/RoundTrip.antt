-- ===== src/Http/RoundTrip.antt =====
-- A reconstructed request of src/connection.rs, read again by the parser of src/utils.rs.
use tinyproxy_rust.Prelude.{
  ◌≡◌, refl, ap, ◌∙◌, true, false, Option, none, some, List, [], ◌∷◌, ◌++◌, append_assoc, is_empty,
  map, All, All-imp, All-append, arith,
}
use tinyproxy_rust.Prelude.Results.{ok}
use tinyproxy_rust.Std.Text.{Str, codes, is_whitespace, split, split_whitespace, strip_prefix}
use tinyproxy_rust.Std.Text.Laws.{IsFree, split_once-at}
use tinyproxy_rust.Std.Text.Trim.{IsWord, trim-cons, split_whitespace_three}
use tinyproxy_rust.Std.Text.Lines.{is_newline, lines}
use tinyproxy_rust.Std.Text.Lines.Laws.{lines-crlf}
use tinyproxy_rust.Std.Text.Case.{Unicode}
use tinyproxy_rust.Std.Text.Case.Laws.{CaseLaws}
use tinyproxy_rust.Std.HashMap.{
  get, insert, insert_all, get-insert_all, or_else, Iterates, Iterates-All,
}
use tinyproxy_rust.Std.Utf8.{Bytes}
use tinyproxy_rust.Std.Utf8.RoundTrip.{IsScalar, from_utf8_lossy-encode}
use tinyproxy_rust.Http.{
  HttpRequest, is_colon, parse_version, add_header, parse_headers, parse_parts, parse_lines,
  parse_http_request, header_line, header_lines, is_absolute, uri_to_use, request_line,
  reconstruct_http_request,
}
use tinyproxy_rust.Http.Parsed.{IsPlain, IsHeader, IsRequest, parse_http_request-IsRequest}

-- A header without its line end, and the request line without its own.
abbrev header_text : Str × Str → Str
header_text (name, value) = name ++ (b':' ∷ b' ' ∷ value)

abbrev line_text : Str → Str → Str → Str
line_text method uri version = method ++ (b' ' ∷ (uri ++ (b' ' ∷ (codes "HTTP/" ++ version))))

crlf-append : (s rest : Str) → (s ++ codes "\r\n") ++ rest ≡ s ++ (b'\r' ∷ b'\n' ∷ rest)
crlf-append s rest = append_assoc s (codes "\r\n") rest

header_line-append :
    (n v rest : Str) → header_line n v ++ rest ≡ header_text (n, v) ++ (b'\r' ∷ b'\n' ∷ rest)
unfolding header_line
header_line-append n v rest = simp append_assoc

request_line-append :
    (r : HttpRequest) (target rest : Str)
    → is_absolute target ≡ true
    → request_line r target ++ rest ≡ line_text r.method r.uri r.version ++ (b'\r' ∷ b'\n' ∷ rest)
unfolding request_line uri_to_use
request_line-append r target rest h = rw (h) (simp append_assoc)

module _ ⦃u : Unicode⦄ where
  header_text-IsFree : (h : Str × Str) → IsHeader h → IsFree is_newline (header_text h)
  header_text-IsFree (n, v) (name, value) =
      All-append _ n (b':' ∷ b' ' ∷ v) (All-imp IsPlain _ n (λ c p. p.1) name.0)
        (refl, (refl, All-imp IsPlain _ v (λ c p. p.1) value.0))

  lines-header_lines :
      (es : List (Str × Str))
      → All IsHeader es
      → lines (header_lines es ++ codes "\r\n") ≡ map header_text es ++ [] ∷ []
  unfolding header_lines
  lines-header_lines [] h = lines-crlf [] [] tt ∙ (unfold lines split in refl)
  lines-header_lines ((n, v) ∷ es) (p, h) =
      ap lines (
        append_assoc (header_line n v) (header_lines es) (codes "\r\n")
        ∙ header_line-append n v (header_lines es ++ codes "\r\n"))
      ∙ lines-crlf (header_text (n, v)) _ (header_text-IsFree (n, v) p)
      ∙ ap (◌∷◌ (header_text (n, v))) (lines-header_lines es h)

  add_header-header_text :
      (m : List (Str × Str)) (n v : Str)
      → IsHeader (n, v)
      → add_header m (header_text (n, v)) ≡ insert n v m
  unfolding add_header
  add_header-header_text m n v ((_, free, trimmed, lower), (_, trimmed_value)) =
      rw (split_once-at is_colon n b':' (b' ' ∷ v) free refl, add_header)
        (rw (trimmed, lower, trim-cons b' ' v (unfold is_whitespace in refl), trimmed_value))

  is_empty-header_text : (h : Str × Str) → is_empty (header_text h) ≡ false
  is_empty-header_text ([], v) = refl
  is_empty-header_text (c ∷ n, v) = refl

  parse_headers-header_text :
      (m es : List (Str × Str))
      → All IsHeader es
      → parse_headers m (map header_text es ++ [] ∷ []) ≡ insert_all m es
  unfolding parse_headers insert_all
  parse_headers-header_text m [] h = refl
  parse_headers-header_text m ((n, v) ∷ es) (p, h) =
      rw (is_empty-header_text (n, v), add_header-header_text m n v p)
        (parse_headers-header_text (insert n v m) es h)

parse_version-prefix : (v : Str) → parse_version (codes "HTTP/" ++ v) ≡ v
unfolding parse_version strip_prefix
parse_version-prefix v = refl

scalars : (s : Str) → All IsPlain s → All IsScalar s
scalars s h = All-imp IsPlain IsScalar s (λ c p. p.0) h

or_else-none : (o : Option Str) → or_else o none ≡ o
or_else-none none = refl
or_else-none (some a) = refl

-- The parser's lines of a reconstructed request.
module _ ⦃u : Unicode⦄ {r : HttpRequest} {es : List (Str × Str)} (target : Str) (wf : IsRequest r)
    (absolute : is_absolute target ≡ true) (walk : Iterates es r.headers) where
  headers_ok : All IsHeader es
  headers_ok = Iterates-All IsHeader es r.headers walk wf.headers

  line_ok : IsFree is_newline (line_text r.method r.uri r.version)
  line_ok = All-append _ r.method _ (All-imp IsPlain _ r.method (λ c p. p.1) wf.method.1) (
    refl,
    All-append _ r.uri _ (All-imp IsPlain _ r.uri (λ c p. p.1) wf.uri.1) (
      refl,
      (refl, (refl, (refl, (refl, (refl, All-imp IsPlain _ r.version (λ c p. p.1) wf.version.1))))),
    ),
  )

  lines-reconstruct :
      lines (request_line r target ++ (header_lines es ++ codes "\r\n"))
      ≡ line_text r.method r.uri r.version ∷ (map header_text es ++ [] ∷ [])
  lines-reconstruct =
      ap lines (request_line-append r target (header_lines es ++ codes "\r\n") absolute)
      ∙ lines-crlf (line_text r.method r.uri r.version) _ line_ok
      ∙ ap (◌∷◌ (line_text r.method r.uri r.version)) (lines-header_lines es headers_ok)

  version-IsWord : IsWord (codes "HTTP/" ++ r.version)
  version-IsWord =
      unfold is_whitespace in ((refl, (refl, (refl, (refl, (refl, wf.version.0))))), λ e. cc)

  words :
      split_whitespace (line_text r.method r.uri r.version)
      ≡ r.method ∷ r.uri ∷ (codes "HTTP/" ++ r.version) ∷ []
  words =
      split_whitespace_three r.method r.uri (codes "HTTP/" ++ r.version) wf.method.0 wf.uri.0
        version-IsWord

  parse_lines-reconstruct :
      parse_lines (lines (request_line r target ++ (header_lines es ++ codes "\r\n")))
      ≡ ok (record r { headers = insert_all [] es })
  unfolding parse_lines parse_parts
  parse_lines-reconstruct =
      ap parse_lines lines-reconstruct
      ∙ ap (λ ws. parse_parts ws (map header_text es ++ [] ∷ [])) words
      ∙ rw (parse_version-prefix r.version, parse_headers-header_text [] es headers_ok)

  header_lines-IsScalar : (hs : List (Str × Str)) → All IsHeader hs → All IsScalar (header_lines hs)
  unfolding header_lines header_line
  header_lines-IsScalar [] h = tt
  header_lines-IsScalar ((n, v) ∷ hs) ((name, value), h) =
      All-append IsScalar (header_line n v) (header_lines hs)
        (All-append IsScalar n _ (scalars n name.0) (
          All-append IsScalar (codes ": ") _ (omega arith)
            (All-append IsScalar v _ (scalars v value.0) (omega arith))))
        (header_lines-IsScalar hs h)

  text-IsScalar : All IsScalar (request_line r target ++ (header_lines es ++ codes "\r\n"))
  unfolding request_line uri_to_use
  text-IsScalar =
      All-append IsScalar (request_line r target) _
        (rw absolute (
          All-append IsScalar r.method _ (scalars r.method wf.method.1) (
            All-append IsScalar (codes " ") _ (omega arith) (
              All-append IsScalar r.uri _ (scalars r.uri wf.uri.1) (
                All-append IsScalar (codes " HTTP/") _ (omega arith) (
                  All-append IsScalar r.version _ (scalars r.version wf.version.1)
                    (omega arith)))))))
        (All-append IsScalar (header_lines es) _ (header_lines-IsScalar es headers_ok)
          (omega arith))

  parse-reconstruct :
      parse_http_request (reconstruct_http_request r target es)
      ≡ ok (record r { headers = insert_all [] es })
  unfolding parse_http_request reconstruct_http_request
  parse-reconstruct =
      ap (λ t. parse_lines (lines t)) (from_utf8_lossy-encode _ text-IsScalar)
      ∙ parse_lines-reconstruct

-- A request that was parsed, and is sent on for an absolute target with its headers in any order,
-- is parsed again as a request with the same method, target and version, and with the same value
-- for every header name.
pub reconstruct_round_trip :
    ⦃u : Unicode⦄ (laws : CaseLaws) (bytes : Bytes) (r : HttpRequest) (target : Str)
    (es : List (Str × Str))
    → parse_http_request bytes ≡ ok r
    → is_absolute target ≡ true
    → Iterates es r.headers
    → (r' : HttpRequest) × (parse_http_request (reconstruct_http_request r target es) ≡ ok r')
      × (r'.method ≡ r.method)
      × (r'.uri ≡ r.uri)
      × (r'.version ≡ r.version)
      × ((k : Str) → get k r'.headers ≡ get k r.headers)
unfolding get
reconstruct_round_trip laws bytes r target es parsed absolute walk =
    let wf = parse_http_request-IsRequest laws bytes r parsed in
    (
      record r { headers = insert_all [] es },
      parse-reconstruct target wf absolute walk,
      refl,
      refl,
      refl,
      λ k. get-insert_all [] es k walk.distinct ∙ or_else-none (get k es) ∙ walk.same k,
    )
