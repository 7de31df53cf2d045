-- ===== src/Http/Names/Tests.antt =====
-- Examples for the host names and header values of src/utils.rs.
use tinyproxy_rust.Prelude.{◌≤◌, ◌≡◌, ◌≢◌, ◌↔◌, refl, true, List, [], All}
use tinyproxy_rust.Std.Text.{Str, codes, byte_len, split, starts_with, ends_with}
use tinyproxy_rust.Std.Text.Case.{is_alphanumeric}
use tinyproxy_rust.Samples.{plain_unicode}
use tinyproxy_rust.Http.Names.{is_valid_hostname, sanitize_header_value}
use tinyproxy_rust.Http.Names.Sanitize.{Picks, sanitize_header_value_iff}
use tinyproxy_rust.Http.Names.Hostnames.{IsLabel, join, is_valid_hostname_iff}

host_taken : is_valid_hostname (codes "a-b.org") ≡ true
unfolding is_valid_hostname split starts_with ends_with is_alphanumeric byte_len
host_taken = refl

is_valid_hostname_iff_example : (is_valid_hostname (codes "a-b.org") ≡ true) ↔ (
    (byte_len (codes "a-b.org") ≤ 253)
    × ((ls : List Str) × (ls ≢ []) × (codes "a-b.org" ≡ join ls) × All IsLabel ls))
is_valid_hostname_iff_example = is_valid_hostname_iff (codes "a-b.org")

sanitize_header_value_iff_example :
    (sanitize_header_value (codes "a\r\nb") ≡ codes "ab") ↔ Picks (codes "a\r\nb") (codes "ab")
sanitize_header_value_iff_example = sanitize_header_value_iff (codes "a\r\nb") (codes "ab")

sanitized : sanitize_header_value (codes "a\r\nb") ≡ codes "ab"
unfolding sanitize_header_value
sanitized = refl
