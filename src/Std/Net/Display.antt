-- ===== src/Std/Net/Display.antt =====
-- `IpAddr::to_string`: four decimal octets, or eight hexadecimal groups with the first longest run of
-- two or more zero groups written `::`.
use tinyproxy_rust.Prelude.{
  ℕ, zero, suc, ◌+◌, ◌-◌, ◌/◌, ◌%◌, ◌≡◌, refl, List, [], ◌∷◌, ◌++◌, take, drop, ltb, ◌==◌,
  if◌then◌else◌,
}
use tinyproxy_rust.Std.Text.{Str, codes}
use tinyproxy_rust.Std.Number.{print_uint}
use tinyproxy_rust.Std.Net.{IpAddr, v4, v6}

hex_digit : ℕ → ℕ
hex_digit d = if ltb d 10 then b'0' + d else b'a' + (d - 10)

-- A group of 16 bits has at most four digits.
print_hex : ℕ → ℕ → Str → Str
print_hex zero n rest = rest
print_hex (suc fuel) n rest =
    let digit = hex_digit (n % 16) in
    let more = print_hex fuel (n / 16) (digit ∷ rest) in if ltb n 16 then digit ∷ rest else more

print_groups : List ℕ → Str
print_groups [] = []
print_groups (g ∷ []) = print_hex 4 g []
print_groups (g ∷ h ∷ gs) = print_hex 4 g (b':' ∷ print_groups (h ∷ gs))

-- The last `n` groups of 16 bits of a number, in front of `gs`.
groups_of : ℕ → ℕ → List ℕ → List ℕ
groups_of zero bits gs = gs
groups_of (suc n) bits gs = groups_of n (bits / 0x10000) (bits % 0x10000 ∷ gs)

record Span : Type 0 where
  start : ℕ
  len : ℕ

abbrev no_span : Span
no_span = record { start = 0; len = 0 }

extend : ℕ → Span → Span
extend i current =
    if current.len == 0
    then record { start = i; len = 1 }
    else record current { len = current.len + 1 }

longer : Span → Span → Span
longer longest current = if ltb longest.len current.len then current else longest

longest_zeros : ℕ → Span → Span → List ℕ → Span
longest_zeros i longest current [] = longest
longest_zeros i longest current (g ∷ gs) =
    let current' = if g == 0 then extend i current else no_span in
    longest_zeros (i + 1) (longer longest current') current' gs

print_v4 : ℕ → Str
print_v4 bits =
    print_uint (bits / 0x1000000)
    ++ (codes "."
        ++ (print_uint (bits / 0x10000 % 256)
            ++ (codes "."
                ++ (print_uint (bits / 256 % 256) ++ (codes "." ++ print_uint (bits % 256))))))

print_v6_groups : List ℕ → Str
unfolding print_groups print_hex hex_digit longest_zeros longer extend
print_v6_groups gs =
    let span = longest_zeros 0 no_span no_span gs in
    if ltb 1 span.len
    then print_groups (take span.start gs)
      ++ (codes "::" ++ print_groups (drop (span.start + span.len) gs))
    else print_groups gs

unfoldable pub ip_to_string : IpAddr → Str
unfolding print_v4 print_v6_groups groups_of
ip_to_string (v4 bits) = print_v4 bits
ip_to_string (v6 bits) =
    if bits / 0x100000000 == 0xFFFF
    then codes "::ffff:" ++ print_v4 (bits % 0x100000000)
    else print_v6_groups (groups_of 8 bits [])

display_tests :
    (ip_to_string (v4 0xC0A80101) ≡ codes "192.168.1.1")
    × (ip_to_string (v6 0x20010db8000000000000000000000001) ≡ codes "2001:db8::1")
    × (ip_to_string (v6 0) ≡ codes "::")
    × (ip_to_string (v6 0xffff01020304) ≡ codes "::ffff:1.2.3.4")
    × (ip_to_string (v6 0x00010000000200030004000500060007) ≡ codes "1:0:2:3:4:5:6:7")
unfolding ip_to_string print_uint
display_tests = (refl, refl, refl, refl, refl)
