-- ===== src/Config/Parse/WellFormed.antt =====
-- What is kept by each option of src/config.rs that is set.
use tinyproxy_rust.Prelude.{
  ℕ, ◌≤◌, ◌≡◌, refl, subst, Option, none, some, Option-cases, List, [], ◌∷◌, All, All-append, ◌==◌,
  inl, inr, if_intro, arith,
}
use tinyproxy_rust.Prelude.Results.{Result, ok, err, ok-inj, ok_or-eq-ok, ◌>>=◌}
use tinyproxy_rust.Std.Text.{Str}
use tinyproxy_rust.Std.Number.{parse_uint, parse_uint-le, u16_max, u64_max}
use tinyproxy_rust.Std.Net.Bounds.{IsAddr}
use tinyproxy_rust.Config.{Config, UpstreamConfig}
use tinyproxy_rust.Config.Parse.{number, upstream_of, insert_code, add_upstream, add_error_file}

-- Every number and address fits its type, the CONNECT ports 443 and 563 stay listed, and what no key
-- sets keeps its default.
abbrev pub IsWellFormed : Config → Type 0
IsWellFormed c =
    (c.port ≤ u16_max)
    × (c.timeout ≤ u64_max)
    × (c.max_clients ≤ u64_max)
    × (c.max_requests_per_child ≤ u64_max)
    × IsAddr c.bind_address
    × All IsAddr c.listen_addresses
    × All (λ p. p ≤ u16_max) c.connect_ports
    × All (λ u. u.port ≤ u16_max) c.upstream
    × All (λ e. e.0 ≤ u16_max) c.error_files
    × ((added : List ℕ) × (c.connect_ports ≡ 443 ∷ 563 ∷ added))
    × (c.reverse_proxy ≡ [])
    × (c.add_headers ≡ [])

-- A result that an option sets.
pub set_ok :
    {A : Type 0} (r : Result Str A) (set : A → Config) (d : Config)
    → ((a : A) → r ≡ ok a → IsWellFormed (set a))
    → (r >>= λ a. ok (set a)) ≡ ok d
    → IsWellFormed d
set_ok (ok a) set d h e = subst IsWellFormed (ok-inj e) (h a refl)
set_ok (err x) set d h e = cc

pub number-le : (top : ℕ) (context value : Str) (n : ℕ) → number top context value ≡ ok n → n ≤ top
unfolding number
number-le top context value n e = parse_uint-le top value n (ok_or-eq-ok (parse_uint top value) _ e)

pub upstream_of-le :
    (value : Str) (parts : List Str) (u : UpstreamConfig)
    → upstream_of value parts ≡ ok u
    → u.port ≤ u16_max
unfolding upstream_of
upstream_of-le value [] u e = cc
upstream_of-le value (a ∷ []) u e = cc
upstream_of-le value (a ∷ b ∷ []) u e = cc
upstream_of-le value (a ∷ b ∷ port ∷ more) u e = elim (Option-cases (parse_uint u16_max port)) [
  | inl x ↦ ground (arith, x, e)
  | inr (n, x) ↦ let bound = parse_uint-le u16_max port n x in ground (arith, x, e, bound)
]

pub add_upstream-All :
    (r : Result Str UpstreamConfig) (us : List UpstreamConfig)
    → ((u : UpstreamConfig) → r ≡ ok u → u.port ≤ u16_max)
    → All (λ u. u.port ≤ u16_max) us
    → All (λ u. u.port ≤ u16_max) (add_upstream r us)
unfolding add_upstream
add_upstream-All (ok u) us h k = All-append _ us (u ∷ []) k (h u refl, tt)
add_upstream-All (err e) us h k = k

insert_code-All :
    (n : ℕ) (file : Str) (m : List (ℕ × Str))
    → n ≤ u16_max
    → All (λ e. e.0 ≤ u16_max) m
    → All (λ e. e.0 ≤ u16_max) (insert_code n file m)
unfolding insert_code
insert_code-All n file [] h k = (h, tt)
insert_code-All n file ((i, v) ∷ m) h (p, k) =
    if_intro (All (λ e. e.0 ≤ u16_max)) (i == n) _ _ (λ same. (p, k))
      (λ other. (p, insert_code-All n file m h k))

pub add_error_file-All :
    (o : Option (Str × Str)) (m : List (ℕ × Str))
    → All (λ e. e.0 ≤ u16_max) m
    → All (λ e. e.0 ≤ u16_max) (add_error_file o m)
unfolding add_error_file
add_error_file-All none m k = k
add_error_file-All (some (code, file)) m k = elim (Option-cases (parse_uint u16_max code)) [
  | inl x ↦ rw (x, add_error_file) k
  | inr (n, x) ↦
      rw (x, add_error_file) (insert_code-All n file m (parse_uint-le u16_max code n x) k)
]
