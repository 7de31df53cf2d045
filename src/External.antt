-- ===== src/External.antt =====
-- The crates that src/auth.rs, src/filter.rs, src/stats.rs and src/connection.rs call, as parameters: `base64`
-- decodes a text, `regex` compiles a pattern to a test on texts, `url` parses a URL. Each may refuse
-- its input; the error of `url` stands by its text. `chrono` prints a time by the format of src/stats.rs,
-- `%Y-%m-%d %H:%M:%S UTC`.
use tinyproxy_rust.Prelude.{ℕ, Bool, Option}
use tinyproxy_rust.Prelude.Results.{Result}
use tinyproxy_rust.Std.Text.{Str}
use tinyproxy_rust.Std.Utf8.{Bytes}

pub record Url : Type 0 where
  pub scheme : Str
  pub host_str : Option Str
  pub port : Option ℕ

pub record Crates : Type 0 where
  pub base64_decode : Str → Option Bytes
  pub regex_new : Str → Option (Str → Bool)
  pub url_parse : Str → Result Str Url
  pub chrono_format : ℕ → Str
