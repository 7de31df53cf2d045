-- ===== src/Stats/Page.antt =====
-- `to_html` of src/stats.rs. The dates are formatted by the crate chrono, a parameter.
use tinyproxy_rust.Prelude.{ℕ, ◌/◌, ◌%◌, List, [], ◌∷◌, ◌++◌}
use tinyproxy_rust.Std.Text.{Str, codes}
use tinyproxy_rust.Std.Number.{print_uint}
use tinyproxy_rust.Std.Float.{F64, of_uint, add, div, print_fixed}
use tinyproxy_rust.External.{Crates}
use tinyproxy_rust.Stats.{
  Stats, format_duration, format_bytes, get_success_rate, get_auth_success_rate,
}

abbrev nanos : ℕ
nanos = 1000000000

-- `Duration::as_secs_f64`.
as_secs : ℕ → F64
as_secs d = add (of_uint (d / nanos)) (div (of_uint (d % nanos)) (of_uint nanos))

concat : List Str → Str
concat [] = []
concat (s ∷ ss) = s ++ concat ss

-- The part of the page in front of the first value.
page_head : Str
page_head = concat (
    codes "<!DOCTYPE html>\n"
    ∷ codes "<html>\n"
    ∷ codes "<head>\n"
    ∷ codes "    <title>Tinyproxy Statistics</title>\n"
    ∷ codes "    <style>\n"
    ∷ codes "        body { font-family: Arial, sans-serif; margin: 20px; }\n"
    ∷ codes "        table { border-collapse: collapse; width: 100%; }\n"
    ∷ codes "        th, td { border: 1px solid #ddd; padding: 12px; text-align: left; }\n"
    ∷ codes "        th { background-color: #f2f2f2; }\n"
    ∷ codes "        .section { margin-bottom: 30px; }\n"
    ∷ codes "        .metric { margin: 10px 0; }\n"
    ∷ codes "        .value { font-weight: bold; color: #2c3e50; }\n"
    ∷ codes "    </style>\n"
    ∷ codes "</head>\n"
    ∷ codes "<body>\n"
    ∷ codes "    <h1>Tinyproxy Statistics</h1>\n"
    ∷ codes "    \n"
    ∷ codes "    <div class=\"section\">\n"
    ∷ codes "        <h2>Server Information</h2>\n"
    ∷ codes "        <div class=\"metric\">Start Time: <span class=\"value\">"
    ∷ [])

page_rest : ⦃x : Crates⦄ → ℕ → Stats → List Str
unfolding as_secs
page_rest ⦃x⦄ now s =
    x.chrono_format s.start_time
    ∷ codes "</span></div>\n"
    ∷ codes "        <div class=\"metric\">Uptime: <span class=\"value\">"
    ∷ format_duration (s.uptime / nanos)
    ∷ codes "</span></div>\n"
    ∷ codes "    </div>\n"
    ∷ codes "\n"
    ∷ codes "    <div class=\"section\">\n"
    ∷ codes "        <h2>Connection Statistics</h2>\n"
    ∷ codes "        <table>\n"
    ∷ codes "            <tr><th>Metric</th><th>Value</th></tr>\n"
    ∷ codes "            <tr><td>Active Connections</td><td class=\"value\">"
    ∷ print_uint s.active_connections
    ∷ codes "</td></tr>\n"
    ∷ codes "            <tr><td>Total Connections Opened</td><td class=\"value\">"
    ∷ print_uint s.connections_opened
    ∷ codes "</td></tr>\n"
    ∷ codes "            <tr><td>Total Connections Closed</td><td class=\"value\">"
    ∷ print_uint s.connections_closed
    ∷ codes "</td></tr>\n"
    ∷ codes "            <tr><td>Peak Connections</td><td class=\"value\">"
    ∷ print_uint s.peak_connections
    ∷ codes "</td></tr>\n"
    ∷ codes "            <tr><td>Average Connection Time</td><td class=\"value\">"
    ∷ print_fixed 2 (as_secs s.average_request_time)
    ∷ codes "s</td></tr>\n"
    ∷ codes "        </table>\n"
    ∷ codes "    </div>\n"
    ∷ codes "\n"
    ∷ codes "    <div class=\"section\">\n"
    ∷ codes "        <h2>Request Statistics</h2>\n"
    ∷ codes "        <table>\n"
    ∷ codes "            <tr><th>Metric</th><th>Value</th></tr>\n"
    ∷ codes "            <tr><td>Requests Processed</td><td class=\"value\">"
    ∷ print_uint s.requests_processed
    ∷ codes "</td></tr>\n"
    ∷ codes "            <tr><td>Requests Denied</td><td class=\"value\">"
    ∷ print_uint s.requests_denied
    ∷ codes "</td></tr>\n"
    ∷ codes "            <tr><td>Requests Failed</td><td class=\"value\">"
    ∷ print_uint s.requests_failed
    ∷ codes "</td></tr>\n"
    ∷ codes "            <tr><td>Requests Filtered</td><td class=\"value\">"
    ∷ print_uint s.requests_filtered
    ∷ codes "</td></tr>\n"
    ∷ codes "            <tr><td>Success Rate</td><td class=\"value\">"
    ∷ print_fixed 1 (get_success_rate s)
    ∷ codes "%</td></tr>\n"
    ∷ codes "        </table>\n"
    ∷ codes "    </div>\n"
    ∷ codes "\n"
    ∷ codes "    <div class=\"section\">\n"
    ∷ codes "        <h2>Data Transfer</h2>\n"
    ∷ codes "        <table>\n"
    ∷ codes "            <tr><th>Metric</th><th>Value</th></tr>\n"
    ∷ codes "            <tr><td>Total Bytes Transferred</td><td class=\"value\">"
    ∷ format_bytes s.bytes_transferred
    ∷ codes "</td></tr>\n"
    ∷ codes "            <tr><td>Bytes Sent</td><td class=\"value\">"
    ∷ format_bytes s.bytes_sent
    ∷ codes "</td></tr>\n"
    ∷ codes "            <tr><td>Bytes Received</td><td class=\"value\">"
    ∷ format_bytes s.bytes_received
    ∷ codes "</td></tr>\n"
    ∷ codes "        </table>\n"
    ∷ codes "    </div>\n"
    ∷ codes "\n"
    ∷ codes "    <div class=\"section\">\n"
    ∷ codes "        <h2>Authentication Statistics</h2>\n"
    ∷ codes "        <table>\n"
    ∷ codes "            <tr><th>Metric</th><th>Value</th></tr>\n"
    ∷ codes "            <tr><td>Authentication Attempts</td><td class=\"value\">"
    ∷ print_uint s.auth_attempts
    ∷ codes "</td></tr>\n"
    ∷ codes "            <tr><td>Authentication Failures</td><td class=\"value\">"
    ∷ print_uint s.auth_failures
    ∷ codes "</td></tr>\n"
    ∷ codes "            <tr><td>Authentication Success Rate</td><td class=\"value\">"
    ∷ print_fixed 1 (get_auth_success_rate s)
    ∷ codes "%</td></tr>\n"
    ∷ codes "        </table>\n"
    ∷ codes "    </div>\n"
    ∷ codes "\n"
    ∷ codes "    <p><em>Generated at: "
    ∷ x.chrono_format now
    ∷ codes "</em></p>\n"
    ∷ codes "</body>\n"
    ∷ codes "</html>"
    ∷ []

-- The page at the time `now`.
unfoldable pub to_html : ⦃x : Crates⦄ → ℕ → Stats → Str
unfolding page_head page_rest concat
to_html now s = page_head ++ concat (page_rest now s)
