-- ===== src/Connection/Upstream/Address.antt =====
-- The address of a CONNECT request, for `parse_host_port` and the address that is connected to in
-- src/connection.rs.
use tinyproxy_rust.Prelude.{
  ℕ, ◌<◌, ◌≡◌, refl, ap, ◌∙◌, false, some, [], ◌∷◌, ◌++◌, ◌^◌, All-imp, arith,
}
use tinyproxy_rust.Prelude.Results.{ok}
use tinyproxy_rust.Std.Text.{Str, split}
use tinyproxy_rust.Std.Text.Laws.{IsFree, split-at, split_undivided}
use tinyproxy_rust.Std.Number.{parse_uint, print_uint, u16_max}
use tinyproxy_rust.Std.Number.RoundTrip.{IsDigit, print_uint-IsDigit, parse_uint-print_uint}
use tinyproxy_rust.Http.{is_colon, host_port_of, parse_host_port}
use tinyproxy_rust.Connection.Upstream.{address}

print_uint-IsFree : (n : ℕ) → IsFree is_colon (print_uint n)
print_uint-IsFree n =
    All-imp IsDigit (λ c. is_colon c ≡ false) (print_uint n) (λ c d. ground (arith, d))
      (print_uint-IsDigit n)

split-address :
    (host s : Str)
    → IsFree is_colon host
    → IsFree is_colon s
    → split is_colon (host ++ b':' ∷ s) ≡ host ∷ s ∷ []
split-address host s h k =
    split-at is_colon host b':' s h refl ∙ ap (◌∷◌ host) (split_undivided is_colon s k)

host_port_of-some :
    (uri host s : Str) (port : ℕ)
    → parse_uint u16_max s ≡ some port
    → host_port_of uri (host ∷ s ∷ []) ≡ ok (host, port)
unfolding host_port_of
host_port_of-some uri host s port read = rw (read, host_port_of) refl

-- The address that is made of a host without a colon and a port is read back as that host and port.
pub parse_host_port-address :
    (host : Str) (port : ℕ)
    → IsFree is_colon host
    → port < 2 ^ 16
    → parse_host_port (address host port) ≡ ok (host, port)
unfolding parse_host_port
parse_host_port-address host port h k =
    ap (host_port_of (address host port))
      (split-address host (print_uint port) h (print_uint-IsFree port))
    ∙ host_port_of-some (address host port) host (print_uint port) port
        (parse_uint-print_uint u16_max port (omega (arith, k)))
