-- ===== src/Stats/Tests.antt =====
-- The tests of src/stats.rs.
use tinyproxy_rust.Prelude.{◌≡◌, refl}
use tinyproxy_rust.Std.Text.{codes}
use tinyproxy_rust.Std.Number.{print_uint}
use tinyproxy_rust.Std.Float.{of_uint, mul, div, print_fixed}
use tinyproxy_rust.Format.{format_in}
use tinyproxy_rust.Stats.Durations.{seconds_of, format_duration_round_trip}
use tinyproxy_rust.Stats.{
  new, format_duration, format_bytes, get_success_rate, get_auth_success_rate,
}

success_rate :
    print_fixed 1
      (get_success_rate (record (new 0) { requests_processed = 80; requests_failed = 20 }))
    ≡ codes "80.0"
unfolding get_success_rate of_uint mul div print_fixed print_uint
success_rate = refl

auth_success_rate :
    print_fixed 1
      (get_auth_success_rate (record (new 0) { auth_attempts = 100; auth_failures = 10 }))
    ≡ codes "90.0"
unfolding get_auth_success_rate of_uint mul div print_fixed print_uint
auth_success_rate = refl

duration_90061 : format_duration 90061 ≡ codes "1d 1h 1m 1s"
unfolding format_duration print_uint
duration_90061 = refl

format_duration_round_trip_example : seconds_of (format_duration 90061) ≡ 90061
format_duration_round_trip_example = format_duration_round_trip 90061

bytes_1048576 : format_bytes 1048576 ≡ codes "1.00 MB"
unfolding format_bytes format_in print_uint of_uint div print_fixed
bytes_1048576 = refl
