-- ===== src/Config/Parse/Tests.antt =====
-- Tests and examples for src/config.rs.
use tinyproxy_rust.Prelude.{◌≡◌, ◌↔◌, true, arith, refl, none, [], ◌∷◌}
use tinyproxy_rust.Prelude.Results.{ok, err}
use tinyproxy_rust.Std.Text.{Str, codes, split, trim, is_whitespace, starts_with, split_once, equal}
use tinyproxy_rust.Std.Text.Case.{to_lowercase}
use tinyproxy_rust.Std.Text.Lines.{lines}
use tinyproxy_rust.Std.HashMap.{get}
use tinyproxy_rust.Std.Number.{parse_uint}
use tinyproxy_rust.Std.Net.{v4, parse_ip, SocketAddr}
use tinyproxy_rust.Samples.{plain_unicode}
use tinyproxy_rust.Config.{Config, default, get_listen_addresses}
use tinyproxy_rust.Config.Parse.{parse_config, from_file}
use tinyproxy_rust.Config.Parse.WellFormed.{IsWellFormed}
use tinyproxy_rust.Acl
use tinyproxy_rust.Config.Parse.Added.{allowing, denying}
use tinyproxy_rust.Config.Parse.Access.{values, Admits, parse_config-is_allowed_iff}
use tinyproxy_rust.Config.Parse.Laws.{parse_config-IsWellFormed}

abbrev sample : Str
sample = codes "# A comment\nPort 3128\n\nListen 127.0.0.1\nConnectPort 8443\nNonsense 1\n"

abbrev sample_config : Config
sample_config = record default {
  port = 3128;
  listen_addresses = v4 0x7F000001 ∷ [];
  connect_ports = 443 ∷ 563 ∷ 8443 ∷ [];
}

parse_sample : parse_config sample ≡ ok sample_config
unfolding parse_config lines split trim is_whitespace starts_with split_once get equal to_lowercase
    parse_uint parse_ip
parse_sample = refl

bad_flag : parse_config (codes "Syslog maybe") ≡ err (codes "Invalid boolean value: maybe")
unfolding parse_config lines split trim is_whitespace starts_with split_once get equal to_lowercase
    parse_uint parse_ip
bad_flag = refl

missing_file : from_file (λ path. none) (codes "/etc/tinyproxy.conf") ≡ ok default
unfolding from_file
missing_file = refl

sample_listens :
    get_listen_addresses sample_config ≡ record { ip = v4 0x7F000001; port = 3128 } ∷ []
unfolding get_listen_addresses
sample_listens = refl

parse_config-IsWellFormed_example : IsWellFormed sample_config
parse_config-IsWellFormed_example = parse_config-IsWellFormed sample sample_config parse_sample

abbrev access_file : Str
access_file = codes "allow 10.0.0.0/8\nDENY  10.1.1.1 \n# Allow 1.2.3.4\n"

abbrev access_config : Config
access_config = record default { allow = codes "10.0.0.0/8" ∷ []; deny = codes "10.1.1.1" ∷ [] }

parse_access : parse_config access_file ≡ ok access_config
unfolding parse_config lines split trim is_whitespace starts_with split_once get equal to_lowercase
    parse_uint parse_ip
parse_access = refl

abbrev inside : SocketAddr
inside = record { ip = v4 0x0A000001; port = 1024 }

parse_config-is_allowed_iff_example :
    (access_config.allow ≡ values allowing (lines access_file))
    × (access_config.deny ≡ values denying (lines access_file))
    × ((Acl.is_allowed (Acl.new access_config) inside ≡ true)
        ↔ Admits inside.ip
            (values allowing (lines access_file))
            (values denying (lines access_file)))
parse_config-is_allowed_iff_example =
    parse_config-is_allowed_iff access_file access_config inside parse_access (omega arith)
