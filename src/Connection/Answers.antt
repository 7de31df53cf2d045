-- ===== src/Connection/Answers.antt =====
-- The answers that src/connection.rs makes up itself: what they announce, and what they have.
use tinyproxy_rust.Prelude.{ℕ, ◌+◌, ◌≤◌, ◌<◌, ◌≡◌, refl, ◌∙◌, [], ◌∷◌, ◌++◌, arith, length, All}
use tinyproxy_rust.Std.Text.{Str, codes, byte_len, utf8_width}
use tinyproxy_rust.Std.Number.{print_uint}
use tinyproxy_rust.Std.Number.RoundTrip.{IsDigit, print_uint-IsDigit, length-print_uint}
use tinyproxy_rust.Connection.{error_body, error_content_length}

byte_len-append : (s t : Str) → byte_len (s ++ t) ≡ byte_len s + byte_len t
unfolding byte_len
byte_len-append [] t = omega arith
byte_len-append (c ∷ s) t = omega (arith, byte_len-append s t)

byte_len-digits : (s : Str) → All IsDigit s → byte_len s ≡ length s
unfolding byte_len
byte_len-digits [] h = refl
byte_len-digits (c ∷ s) (d, h) =
    let one : utf8_width c ≡ 1 = ground (arith, d) in omega (arith, one, byte_len-digits s h)

-- The body of an error with a status of three digits is seven bytes longer than its Content-Length
-- says, whatever the reason is.
pub error_body-size :
    (status : ℕ) (reason : Str)
    → 100 ≤ status
    → status < 1000
    → byte_len (error_body status reason) ≡ error_content_length reason + 7
unfolding error_body error_content_length
error_body-size status reason low high =
    let digits : byte_len (print_uint status) ≡ 3 =
      byte_len-digits (print_uint status) (print_uint-IsDigit status)
      ∙ length-print_uint status low high in
    let left : byte_len (codes "<html><body><h1>") ≡ 16 = unfold byte_len in refl in
    let right : byte_len (codes "</h1></body></html>") ≡ 19 = unfold byte_len in refl in
    let blank : byte_len (codes " ") ≡ 1 = unfold byte_len in refl in
    omega (
      arith,
      digits,
      left,
      right,
      blank,
      byte_len-append (codes "<html><body><h1>")
          (print_uint status ++ (codes " " ++ (reason ++ codes "</h1></body></html>"))),
      byte_len-append (print_uint status) (codes " " ++ (reason ++ codes "</h1></body></html>")),
      byte_len-append (codes " ") (reason ++ codes "</h1></body></html>"),
      byte_len-append reason (codes "</h1></body></html>"),
    )
