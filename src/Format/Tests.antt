-- ===== src/Format/Tests.antt =====
-- The tests of src/utils.rs.
use tinyproxy_rust.Prelude.{ℕ, ◌≡◌, refl, [], ◌∷◌, arith}
use tinyproxy_rust.Std.Text.{codes}
use tinyproxy_rust.Std.Number.{print_uint}
use tinyproxy_rust.Std.Float.{of_uint, div, print_fixed}
use tinyproxy_rust.Format.{format_in, format_bytes}
use tinyproxy_rust.Format.Laws.{text_in, IsNear, format_in-IsNear}

bytes_500 : format_bytes 500 ≡ codes "500 B"
unfolding format_bytes print_uint of_uint div print_fixed
bytes_500 = refl

bytes_1024 : format_bytes 1024 ≡ codes "1.00 KB"
unfolding format_bytes print_uint of_uint div print_fixed
bytes_1024 = refl

bytes_1536 : format_bytes 1536 ≡ codes "1.50 KB"
unfolding format_bytes print_uint of_uint div print_fixed
bytes_1536 = refl

bytes_1048576 : format_bytes 1048576 ≡ codes "1.00 MB"
unfolding format_bytes print_uint of_uint div print_fixed
bytes_1048576 = refl

-- The largest number, and one that is printed as 1024 of its unit.
bytes_max : format_bytes 18446744073709551615 ≡ codes "16777216.00 TB"
unfolding format_bytes print_uint of_uint div print_fixed
bytes_max = refl

bytes_below_mega : format_bytes 1048575 ≡ codes "1024.00 KB"
unfolding format_bytes print_uint of_uint div print_fixed
bytes_below_mega = refl

format_in-IsNear_example :
    (k v : ℕ) × (format_in (codes "B" ∷ codes "KB" ∷ []) 1536
      ≡ text_in (codes "B" ∷ codes "KB" ∷ []) 1536 k v)
    × IsNear 1 1536 k v
format_in-IsNear_example =
    format_in-IsNear (codes "B" ∷ codes "KB" ∷ []) 1536 (omega arith) (omega arith)
