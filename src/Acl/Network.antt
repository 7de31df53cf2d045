-- ===== src/Acl/Network.antt =====
-- When an address lies in a network, for src/acl.rs: the leading bits agree.
use tinyproxy_rust.Prelude.{
  ℕ, zero, suc, ◌-◌, ◌/◌, ◌^◌, ◌≤◌, ◌<◌, bit_and, ◌≡◌, ◌↔◌, true, arith, ◌==◌, ==_iff,
}
use tinyproxy_rust.Std.Bits.{bit_not, sub_u8, masked_eq_iff, pow_pos, shl-one}
use tinyproxy_rust.Std.Net.{IpAddr, v4, v6}
use tinyproxy_rust.Std.Net.Bounds.{IsAddr}
use tinyproxy_rust.Acl.{net_mask, ip_in_network, max_prefix}

-- The first `prefix` bits agree; addresses of different versions share no network.
abbrev pub InNetwork : IpAddr → IpAddr → ℕ → Type 0
InNetwork (v4 a) (v4 n) prefix = a / 2 ^ (32 - prefix) ≡ n / 2 ^ (32 - prefix)
InNetwork (v6 a) (v6 n) prefix = a / 2 ^ (128 - prefix) ≡ n / 2 ^ (128 - prefix)
InNetwork _ _ prefix = ⊥

-- At a valid prefix the mask is the one of the leading bits, so no shift wraps around.
net_mask-eq :
    (w prefix : ℕ)
    → prefix ≤ w
    → w ≤ 128
    → 0 < w
    → net_mask w prefix ≡ bit_not w (2 ^ (w - prefix) - 1)
unfolding net_mask
net_mask-eq w zero p q r = let e : w - 0 ≡ w = omega arith in rw e (omega (arith, pow_pos w))
net_mask-eq w (suc prefix) p q r =
    let e : sub_u8 w (suc prefix) ≡ w - suc prefix = omega arith in
    rw (e, shl-one w (w - suc prefix) (omega arith)) (ground arith)

word_iff :
    (w prefix a n : ℕ)
    → prefix ≤ w
    → w ≤ 128
    → 0 < w
    → a < 2 ^ w
    → n < 2 ^ w
    → ((bit_and a (net_mask w prefix) == bit_and n (net_mask w prefix)) ≡ true)
      ↔ (a / 2 ^ (w - prefix) ≡ n / 2 ^ (w - prefix))
word_iff w prefix a n p q r ha hn =
    let (to, from) = masked_eq_iff w (w - prefix) a n ha hn (omega arith) in
    rw (net_mask-eq w prefix p q r) (λ e. to ((==_iff _ _).0 e), λ e. (==_iff _ _).1 (from e))

-- For addresses that fit their types and a prefix that fits the network's, an address is in a
-- network exactly when both are of one version and agree in the first `prefix` bits.
pub ip_in_network_iff :
    (ip net : IpAddr) (prefix : ℕ)
    → IsAddr ip
    → IsAddr net
    → prefix ≤ max_prefix net
    → (ip_in_network ip net prefix ≡ true) ↔ InNetwork ip net prefix
unfolding ip_in_network
ip_in_network_iff (v4 a) (v4 n) prefix ha hn p =
    word_iff 32 prefix a n p (omega arith) (omega arith) ha hn
ip_in_network_iff (v6 a) (v6 n) prefix ha hn p =
    word_iff 128 prefix a n p (omega arith) (omega arith) ha hn
ip_in_network_iff _ _ prefix ha hn p = ground arith
