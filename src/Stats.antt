-- ===== src/Stats.antt =====
-- src/stats.rs: the counters of the server. Durations are in nanoseconds.
pub mod Page
pub mod Durations
mod Tests
use tinyproxy_rust.Prelude.{
  List, [], ◌∷◌, Option, none, some, ◌+◌, ◌==◌, ℕ, ◌-◌, ◌/◌, ◌%◌, ◌^◌, ltb, ◌++◌, if◌then◌else◌,
}
use tinyproxy_rust.Std.Text.{Str, codes}
use tinyproxy_rust.Std.Number.{print_uint}
use tinyproxy_rust.Std.Float.{F64, of_uint, mul, div}
use tinyproxy_rust.Format.{format_in}

pub record Stats : Type 0 where
  pub connections_opened : ℕ
  pub connections_closed : ℕ
  pub active_connections : ℕ
  pub total_connection_time : ℕ
  pub requests_processed : ℕ
  pub requests_denied : ℕ
  pub requests_failed : ℕ
  pub bytes_transferred : ℕ
  pub bytes_sent : ℕ
  pub bytes_received : ℕ
  pub average_request_time : ℕ
  pub peak_connections : ℕ
  pub requests_filtered : ℕ
  pub auth_attempts : ℕ
  pub auth_failures : ℕ
  pub start_time : ℕ
  pub uptime : ℕ

-- `Stats::new` at the time `now`.
abbrev pub new : ℕ → Stats
new now = record {
  connections_opened = 0;
  connections_closed = 0;
  active_connections = 0;
  total_connection_time = 0;
  requests_processed = 0;
  requests_denied = 0;
  requests_failed = 0;
  bytes_transferred = 0;
  bytes_sent = 0;
  bytes_received = 0;
  average_request_time = 0;
  peak_connections = 0;
  requests_filtered = 0;
  auth_attempts = 0;
  auth_failures = 0;
  start_time = now;
  uptime = 0;
}

-- A clock that went back gives 0, as `unwrap_or_default` does.
unfoldable pub update_uptime : ℕ → Stats → Stats
update_uptime now s = record s { uptime = now - s.start_time }

unfoldable pub update_peak_connections : Stats → Stats
update_peak_connections s =
    if ltb s.peak_connections s.active_connections
    then record s { peak_connections = s.active_connections }
    else s

-- The quotient is cut to 64 bits.
unfoldable pub calculate_average_request_time : Stats → Stats
calculate_average_request_time s =
    if ltb 0 s.requests_processed
    then record s { average_request_time = s.total_connection_time / s.requests_processed % 2 ^ 64 }
    else s

-- `format_duration` of a number of whole seconds.
unfoldable pub format_duration : ℕ → Str
format_duration total_seconds =
    let days = total_seconds / 86400 in
    let hours = total_seconds % 86400 / 3600 in
    let minutes = total_seconds % 3600 / 60 in
    let seconds = total_seconds % 60 in
    let s = print_uint seconds ++ codes "s" in
    let m = print_uint minutes ++ (codes "m " ++ s) in
    let h = print_uint hours ++ (codes "h " ++ m) in
    if ltb 0 days
    then print_uint days ++ (codes "d " ++ h)
    else if ltb 0 hours
    then h
    else if ltb 0 minutes
    then m
    else s

-- The sum of the two counters is on 64 bits.
unfoldable pub get_success_rate : Stats → F64
get_success_rate s =
    let total_requests = (s.requests_processed + s.requests_failed) % 2 ^ 64 in
    if total_requests == 0
    then of_uint 0
    else mul (div (of_uint s.requests_processed) (of_uint total_requests)) (of_uint 100)

unfoldable pub get_auth_success_rate : Stats → F64
get_auth_success_rate s =
    if s.auth_attempts == 0
    then of_uint 0
    else (let successes = (s.auth_attempts + 2 ^ 64 - s.auth_failures) % 2 ^ 64 in
        mul (div (of_uint successes) (of_uint s.auth_attempts)) (of_uint 100))

abbrev units : List Str
units = codes "B" ∷ codes "KB" ∷ codes "MB" ∷ codes "GB" ∷ codes "TB" ∷ codes "PB" ∷ []

unfoldable pub format_bytes : ℕ → Str
format_bytes bytes = format_in units bytes

-- `to_string_pretty` is that of the crate serde_json, which may fail.
unfoldable pub to_json : (Stats → Option Str) → Stats → Str
to_json to_string_pretty s = elim (to_string_pretty s) [ some text ↦ text | none ↦ codes "{}" ]
