-- ===== src/Format.antt =====
-- `format_bytes` of src/utils.rs, and its loop, which the function of that name of src/stats.rs shares.
pub mod Laws
mod Tests
use tinyproxy_rust.Prelude.{ℕ, zero, suc, ◌-◌, List, [], ◌∷◌, ◌++◌, length, ◌==◌, if◌then◌else◌}
use tinyproxy_rust.Std.Text.{Str, codes}
use tinyproxy_rust.Std.Number.{print_uint}
use tinyproxy_rust.Std.Float.{F64, of_uint, div, ge, print_fixed}

-- The loop: `left` units come behind the one at `unit_index`.
pub shrink : ℕ → ℕ → F64 → ℕ × F64
shrink zero unit_index size = (unit_index, size)
shrink (suc left) unit_index size =
    let next = shrink left (suc unit_index) (div size (of_uint 1024)) in
    if ge size (of_uint 1024) then next else (unit_index, size)

pub unit_name : List Str → ℕ → Str
unit_name [] n = []
unit_name (name ∷ more) zero = name
unit_name (name ∷ more) (suc n) = unit_name more n

show_size : List Str → ℕ → ℕ × F64 → Str
unfolding unit_name
show_size units bytes (unit_index, size) =
    if unit_index == 0
    then print_uint bytes ++ (codes " " ++ unit_name units unit_index)
    else print_fixed 2 size ++ (codes " " ++ unit_name units unit_index)

unfoldable pub format_in : List Str → ℕ → Str
unfolding shrink show_size
format_in units bytes = show_size units bytes (shrink (length units - 1) 0 (of_uint bytes))

abbrev units : List Str
units = codes "B" ∷ codes "KB" ∷ codes "MB" ∷ codes "GB" ∷ codes "TB" ∷ []

unfoldable pub format_bytes : ℕ → Str
unfolding format_in
format_bytes bytes = format_in units bytes
