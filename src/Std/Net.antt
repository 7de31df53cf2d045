-- ===== src/Std/Net.antt =====
-- `IpAddr` by the number that `u32::from` or `u128::from` gives, `SocketAddr`, and
-- `IpAddr::from_str`: the parser of `core::net`, each read returning what is left of the text.
pub mod Bounds
pub mod Display
use tinyproxy_rust.Prelude.{
  ℕ, zero, suc, ◌+◌, ◌-◌, ◌*◌, ◌/◌, ◌%◌, Bool, true, false, not, ◌&&◌, ◌||◌, Option, none, some,
  List, [], ◌∷◌, ◌++◌, length, leb, ltb, ◌==◌, if◌then◌else◌,
}
use tinyproxy_rust.Std.Text.{Str}

pub data IpAddr : Type 0 where
  v4 : ℕ → IpAddr
  v6 : ℕ → IpAddr

pub record SocketAddr : Type 0 where
  pub ip : IpAddr
  pub port : ℕ

infixl 5 ◌>>=◌
abbrev ◌>>=◌ {ℓ κ} : {A : Type ℓ} {B : Type κ} → Option A → (A → Option B) → Option B
none >>= f = none
some a >>= f = f a

-- `char::to_digit` for a radix of at most 16.
digit_value : ℕ → Option ℕ
digit_value c =
    if leb b'0' c && leb c b'9'
    then some (c - b'0')
    else if leb b'a' c && leb c b'f'
    then some (c - b'a' + 10)
    else if leb b'A' c && leb c b'F'
    then some (c - b'A' + 10)
    else none

below : ℕ → Option ℕ → Option ℕ
below radix none = none
below radix (some d) = if ltb d radix then some d else none

-- The digits that lead the text: their value, how many there are, and what follows. One digit more
-- than `left` is an error.
read_digits : ℕ → ℕ → ℕ → ℕ → Str → Option (ℕ × ℕ × Str)
read_digits radix left value count [] = some (value, count, [])
read_digits radix left value count (c ∷ s) = elim (below radix (digit_value c)) [
  | none ↦ some (value, count, c ∷ s)
  | some d ↦ elim left [
    | zero ↦ none
    | suc fewer ↦ read_digits radix fewer (value * radix + d) (count + 1) s
  ]
]

starts_with_zero : Str → Bool
starts_with_zero [] = false
starts_with_zero (c ∷ s) = c == b'0'

-- No digit, or a zero in front where that is refused, or a value past the type's largest.
checked_number : ℕ → Bool → ℕ × ℕ × Str → Option (ℕ × Str)
checked_number top zero_refused (value, count, rest) =
    if count == 0
    then none
    else if zero_refused && ltb 1 count
    then none
    else if leb value top
    then some (value, rest)
    else none

read_number : ℕ → ℕ → ℕ → Bool → Str → Option (ℕ × Str)
unfolding read_digits digit_value below starts_with_zero checked_number
read_number radix max_digits top allow_zero_prefix s = do
  found ← read_digits radix max_digits 0 0 s
  checked_number top (not allow_zero_prefix && starts_with_zero s) found

read_given_char : ℕ → Str → Option Str
read_given_char c [] = none
read_given_char c (d ∷ s) = if d == c then some s else none

-- `read_separator`: the separator stands before all but the first item.
read_separator {ℓ} : {A : Type ℓ} → ℕ → Bool → (Str → Option A) → Str → Option A
unfolding read_given_char
read_separator sep true inner s = inner s
read_separator sep false inner s = do rest ← read_given_char sep s; inner rest

read_octet : Bool → Str → Option (ℕ × Str)
unfolding read_number read_separator
read_octet first = read_separator b'.' first (read_number 10 3 255 false)

-- The octets read so far, as one number, and one more.
next_octet : ℕ × Str → Option (ℕ × Str)
unfolding read_octet
next_octet (value, s) = do (octet, rest) ← read_octet false s; some (value * 256 + octet, rest)

read_ipv4_addr : Str → Option (ℕ × Str)
unfolding read_octet next_octet
read_ipv4_addr s = read_octet true s >>= next_octet >>= next_octet >>= next_octet

-- `i < limit - 1`, for `r` groups left behind this one: an embedded IPv4 address fills two groups.
read_embedded : ℕ → Bool → Str → Option (ℕ × Str)
unfolding read_ipv4_addr
read_embedded zero first s = none
read_embedded (suc r) first s = read_separator b':' first read_ipv4_addr s

read_group : Bool → Str → Option (ℕ × Str)
unfolding read_number read_separator
read_group first = read_separator b':' first (read_number 16 4 0xFFFF true)

-- At most `left` groups, whether the last two are an IPv4 address, and what follows.
read_groups : ℕ → Bool → Str → List ℕ × Bool × Str
unfolding read_embedded read_group
read_groups zero first s = ([], false, s)
read_groups (suc r) first s = elim (read_embedded r first s) [
  | some (addr, rest) ↦ (addr / 0x10000 ∷ addr % 0x10000 ∷ [], true, rest)
  | none ↦ elim (read_group first s) [
    | none ↦ ([], false, s)
    | some (g, rest) ↦
        let (gs, embedded, after) = read_groups r false rest in (g ∷ gs, embedded, after)
  ]
]

zeros : ℕ → List ℕ
zeros zero = []
zeros (suc n) = 0 ∷ zeros n

-- The groups, most significant first, onto `acc`.
from_groups : ℕ → List ℕ → ℕ
from_groups acc [] = acc
from_groups acc (g ∷ gs) = from_groups (acc * 0x10000 + g) gs

-- Zeros fill the eight groups between the front part and the back part.
join_groups : List ℕ → List ℕ → ℕ
unfolding zeros from_groups
join_groups head tail = from_groups 0 (head ++ (zeros (8 - length head - length tail) ++ tail))

back_part : List ℕ → Str → ℕ × Str
unfolding read_groups join_groups
back_part head s =
    let (tail, _, rest) = read_groups (8 - (length head + 1)) true s in
    (join_groups head tail, rest)

-- `::` stands for at least one group.
read_ipv6_tail : List ℕ → Str → Option (ℕ × Str)
unfolding read_given_char back_part
read_ipv6_tail head s = do
  s₁ ← read_given_char b':' s
  s₂ ← read_given_char b':' s₁
  some (back_part head s₂)

after_front : List ℕ × Bool × Str → Option (ℕ × Str)
unfolding from_groups read_ipv6_tail
after_front (head, embedded, rest) =
    if length head == 8
    then some (from_groups 0 head, rest)
    else if embedded
    then none
    else read_ipv6_tail head rest

read_ipv6_addr : Str → Option (ℕ × Str)
unfolding read_groups after_front
read_ipv6_addr s = after_front (read_groups 8 true s)

read_ip_addr : Str → Option (IpAddr × Str)
unfolding read_ipv4_addr read_ipv6_addr
read_ip_addr s = elim (read_ipv4_addr s) [
  | some (bits, rest) ↦ some (v4 bits, rest)
  | none ↦ do (bits, rest) ← read_ipv6_addr s; some (v6 bits, rest)
]

at_end : IpAddr × Str → Option IpAddr
at_end (a, []) = some a
at_end (a, c ∷ s) = none

-- `IpAddr::from_str`: nothing may follow the address.
unfoldable pub parse_ip : Str → Option IpAddr
unfolding read_ip_addr at_end
parse_ip s = do found ← read_ip_addr s; at_end found
