-- ===== src/Std/Net/Bounds.antt =====
-- A parsed address fits its type.
use native.Mathlib.Nat.{pow-suc, mul-le-mul_right, pow-le-pow_right}
use tinyproxy_rust.Prelude.{
  ℕ, zero, suc, ◌+◌, ◌-◌, ◌*◌, ◌^◌, ◌≤◌, ◌<◌, ◌≡◌, refl, subst, Bool, true, false, not, ◌&&◌, inl,
  inr, Option, some, none, List, [], ◌∷◌, ◌++◌, length, length-append, All, All-append,
  Option-cases, Bool-cases, ◌==◌, arith,
}
use tinyproxy_rust.Std.Text.{Str}
use tinyproxy_rust.Std.Net.{
  IpAddr, v4, v6, parse_ip, checked_number, starts_with_zero, read_digits, read_number,
  read_given_char, read_separator, read_octet, next_octet, read_ipv4_addr, read_embedded,
  read_group, read_groups, zeros, from_groups, join_groups, back_part, read_ipv6_tail, after_front,
  read_ipv6_addr, read_ip_addr, at_end, ◌>>=◌,
}

abbrev pub IsAddr : IpAddr → Type 0
IsAddr (v4 bits) = bits < 2 ^ 32
IsAddr (v6 bits) = bits < 2 ^ 128

>>=-eq-some {ℓ κ} :
    {A : Type ℓ} {B : Type κ} (m : Option A) (f : A → Option B) {b : B}
    → (m >>= f) ≡ some b
    → (a : A) × (m ≡ some a) × (f a ≡ some b)
>>=-eq-some none f h = cc
>>=-eq-some (some a) f h = (a, refl, h)

checked_number-le :
    (top : ℕ) (refused : Bool) (p : ℕ × ℕ × Str) (v : ℕ) (rest : Str)
    → checked_number top refused p ≡ some (v, rest)
    → v ≤ top
unfolding checked_number
checked_number-le top refused (value, count, r) v rest h = ground arith

read_number-le :
    (radix digits top : ℕ) (z : Bool) (s : Str) (v : ℕ) (rest : Str)
    → read_number radix digits top z s ≡ some (v, rest)
    → v ≤ top
unfolding read_number
read_number-le radix digits top z s v rest h =
    let refused = not z && starts_with_zero s in
    let (found, _, checked) =
      >>=-eq-some (read_digits radix digits 0 0 s) (checked_number top refused) h in
    checked_number-le top refused found v rest checked

module _ {ℓ κ} {A : Type ℓ} (P : A → Type κ) (inner : Str → Option A) where
  -- What holds of every item that is read holds behind a separator too.
  read_separator-holds :
      (sep : ℕ) (first : Bool) (s : Str) (a : A)
      → ((t : Str) → inner t ≡ some a → P a)
      → read_separator sep first inner s ≡ some a
      → P a
  unfolding read_separator
  read_separator-holds sep true s a h e = h s e
  read_separator-holds sep false s a h e =
      let (rest, _, later) = >>=-eq-some (read_given_char sep s) inner e in h rest later

read_octet-le : (first : Bool) (s : Str) (p : ℕ × Str) → read_octet first s ≡ some p → p.0 ≤ 255
unfolding read_octet
read_octet-le first s p e =
    read_separator-holds (λ q. q.0 ≤ 255) _ b'.' first s p
      (λ t. read_number-le 10 3 255 false t p.0 p.1) e

next_octet-lt :
    (bound : ℕ) (p q : ℕ × Str) → p.0 < bound → next_octet p ≡ some q → q.0 < bound * 256
unfolding next_octet
next_octet-lt bound (value, s) q h e = elim (Option-cases (read_octet false s)) [
  | inl x ↦ ground (arith, x)
  | inr (o, x) ↦ ground (arith, x, read_octet-le false s o)
]

read_ipv4_addr-lt : (s : Str) (p : ℕ × Str) → read_ipv4_addr s ≡ some p → p.0 < 2 ^ 32
unfolding read_ipv4_addr
read_ipv4_addr-lt s p e =
    let first = read_octet true s in
    let (c, ec, hc) = >>=-eq-some (first >>= next_octet >>= next_octet) next_octet e in
    let (b, eb, hb) = >>=-eq-some (first >>= next_octet) next_octet ec in
    let (a, ea, ha) = >>=-eq-some first next_octet eb in
    omega (
      arith,
      next_octet-lt (256 * 256 * 256) c p
          (next_octet-lt (256 * 256) b c
            (next_octet-lt 256 a b (omega (arith, read_octet-le true s a ea)) ha) hb)
          hc,
    )

-- The groups of an IPv6 address: at most `limit`, each of 16 bits.
abbrev AreGroups : ℕ → List ℕ → Type 0
AreGroups limit gs = All (λ g. g < 0x10000) gs × (length gs ≤ limit)

read_group-le : (first : Bool) (s : Str) (p : ℕ × Str) → read_group first s ≡ some p → p.0 ≤ 0xFFFF
unfolding read_group
read_group-le first s p e =
    read_separator-holds (λ q. q.0 ≤ 0xFFFF) _ b':' first s p
      (λ t. read_number-le 16 4 0xFFFF true t p.0 p.1) e

read_embedded-lt :
    (r : ℕ) (first : Bool) (s : Str) (p : ℕ × Str)
    → read_embedded r first s ≡ some p
    → (p.0 < 2 ^ 32) × (1 ≤ r)
unfolding read_embedded
read_embedded-lt zero first s p e = cc
read_embedded-lt (suc r) first s p e = (
  read_separator-holds (λ q. q.0 < 2 ^ 32) read_ipv4_addr b':' first s p
      (λ t. read_ipv4_addr-lt t p) e,
  omega arith,
)

read_groups-AreGroups : (r : ℕ) (first : Bool) (s : Str) → AreGroups r (read_groups r first s).0
unfolding read_groups
read_groups-AreGroups zero first s = (tt, omega arith)
read_groups-AreGroups (suc r) first s = elim (Option-cases (read_embedded r first s)) [
  | inr (p, e) ↦ rw (e, read_groups) (ground (arith, read_embedded-lt r first s p e))
  | inl x ↦ elim (Option-cases (read_group first s)) [
    | inl y ↦ rw (x, y, read_groups) (tt, omega arith)
    | inr (p, e) ↦
        let (gs, few) = read_groups-AreGroups r false p.1 in
        rw (x, e, read_groups) ((omega (arith, read_group-le first s p e), gs), omega arith)
  ]
]

from_groups-lt :
    (acc : ℕ) (gs : List ℕ)
    → All (λ g. g < 0x10000) gs
    → from_groups acc gs < (acc + 1) * 0x10000 ^ length gs
unfolding from_groups
from_groups-lt acc [] h = omega arith
from_groups-lt acc (g ∷ gs) (p, h) =
    let room : acc * 0x10000 + g + 1 ≤ (acc + 1) * 0x10000 = omega arith in
    let rest = from_groups-lt (acc * 0x10000 + g) gs h in
    rw (pow-suc 0x10000 (length gs)) (grind (arith, mul-le-mul_right (0x10000 ^ length gs) room))

zeros-AreGroups : (n : ℕ) → AreGroups n (zeros n)
unfolding zeros
zeros-AreGroups zero = (tt, omega arith)
zeros-AreGroups (suc n) = let (z, few) = zeros-AreGroups n in ((omega arith, z), omega arith)

AreGroups-lt : (gs : List ℕ) → AreGroups 8 gs → from_groups 0 gs < 2 ^ 128
AreGroups-lt gs (each, few) =
    let fits : 0x10000 ^ length gs ≤ 0x10000 ^ 8 = pow-le-pow_right (omega arith) few in
    omega (arith, from_groups-lt 0 gs each)

AreGroups-append :
    (m n k : ℕ) (gs hs : List ℕ)
    → m + n ≤ k
    → AreGroups m gs
    → AreGroups n hs
    → AreGroups k (gs ++ hs)
AreGroups-append m n k gs hs h (a, p) (b, q) =
    (All-append (λ g. g < 0x10000) gs hs a b, omega (arith, length-append gs hs))

join_groups-lt :
    (head tail : List ℕ)
    → AreGroups 7 head
    → AreGroups (8 - (length head + 1)) tail
    → join_groups head tail < 2 ^ 128
unfolding join_groups
join_groups-lt head tail (h, few) (t, fewer) =
    let gap = 8 - length head - length tail in
    let (z, _) = zeros-AreGroups gap in
    AreGroups-lt _ (
      AreGroups-append (length head) (8 - length head) 8 head (zeros gap ++ tail) (omega arith)
        (h, omega arith)
        (AreGroups-append gap (length tail) _ (zeros gap) tail (omega arith) (zeros-AreGroups gap)
          (t, omega arith)))

back_part-lt : (head : List ℕ) (s : Str) → AreGroups 7 head → (back_part head s).0 < 2 ^ 128
unfolding back_part
back_part-lt head s h =
    join_groups-lt head _ h (read_groups-AreGroups (8 - (length head + 1)) true s)

read_ipv6_tail-lt :
    (head : List ℕ) (s : Str) (p : ℕ × Str)
    → AreGroups 7 head
    → read_ipv6_tail head s ≡ some p
    → p.0 < 2 ^ 128
unfolding read_ipv6_tail
read_ipv6_tail-lt head s p h e = elim (Option-cases (read_given_char b':' s)) [
  | inl x ↦ ground (arith, x)
  | inr (s₁, x) ↦ elim (Option-cases (read_given_char b':' s₁)) [
    | inl y ↦ ground (arith, x, y)
    | inr (s₂, y) ↦ ground (arith, x, y, back_part-lt head s₂ h)
  ]
]

after_front-lt :
    (f : List ℕ × Bool × Str) (p : ℕ × Str)
    → AreGroups 8 f.0
    → after_front f ≡ some p
    → p.0 < 2 ^ 128
unfolding after_front
after_front-lt (head, embedded, rest) p h e = elim (Bool-cases (length head == 8)) [
  | inl x ↦ ground (arith, x, AreGroups-lt head h)
  | inr x ↦ ground (arith, x, read_ipv6_tail-lt head rest p (h.0, ground arith))
]

read_ipv6_addr-lt : (s : Str) (p : ℕ × Str) → read_ipv6_addr s ≡ some p → p.0 < 2 ^ 128
unfolding read_ipv6_addr
read_ipv6_addr-lt s p e = after_front-lt _ p (read_groups-AreGroups 8 true s) e

read_ip_addr-IsAddr : (s : Str) (p : IpAddr × Str) → read_ip_addr s ≡ some p → IsAddr p.0
unfolding read_ip_addr
read_ip_addr-IsAddr s p e = elim (Option-cases (read_ipv4_addr s)) [
  | inr (a, x) ↦ ground (arith, x, read_ipv4_addr-lt s a x)
  | inl x ↦ elim (Option-cases (read_ipv6_addr s)) [
    | inl y ↦ ground (arith, x, y)
    | inr (a, y) ↦ ground (arith, x, y, read_ipv6_addr-lt s a y)
  ]
]

at_end-eq-some : (p : IpAddr × Str) (a : IpAddr) → at_end p ≡ some a → p.0 ≡ a
unfolding at_end
at_end-eq-some (b, []) a e = ground arith
at_end-eq-some (b, c ∷ s) a e = cc

-- A text that parses as an address gives one of 32 or of 128 bits.
pub parse_ip-IsAddr : (s : Str) (a : IpAddr) → parse_ip s ≡ some a → IsAddr a
unfolding parse_ip
parse_ip-IsAddr s a e =
    let (p, found, last) = >>=-eq-some (read_ip_addr s) at_end e in
    subst IsAddr (at_end-eq-some p a last) (read_ip_addr-IsAddr s p found)
