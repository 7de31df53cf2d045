-- ===== src/Main/Tests.antt =====
-- Tests and examples for src/main.rs.
use tinyproxy_rust.Prelude.{◌==◌, ◌≡◌, refl, true, false, none, some, List, [], ◌∷◌}
use tinyproxy_rust.Prelude.Results.{ok, err}
use tinyproxy_rust.Std.Text.{codes, split, trim, is_whitespace, starts_with, split_once, equal}
use tinyproxy_rust.Std.Text.Case.{to_lowercase}
use tinyproxy_rust.Std.Text.Lines.{lines}
use tinyproxy_rust.Std.HashMap.{get}
use tinyproxy_rust.Std.Number.{parse_uint}
use tinyproxy_rust.Std.Net.{v4, SocketAddr}
use tinyproxy_rust.Samples.{plain_unicode}
use tinyproxy_rust.Config.{Config, default, get_listen_addresses}
use tinyproxy_rust.Config.Parse.{parse_config, from_file}
use tinyproxy_rust.Server.{semaphore}
use tinyproxy_rust.Server.Run.{start}
use tinyproxy_rust.Main.{Args, Env, parent, child, left_to_child, panicked, main}
use tinyproxy_rust.Main.Laws.{main_debug}

-- No configuration file, and nothing fails but a second logger.
abbrev plain : Env
plain = record {
  init_returns = λ n. n == 0;
  files = λ path. none;
  fork = λ n. child;
  setsid = none;
  set_current_dir = none;
  open_null = none;
  binds = λ bound addr. none;
}

abbrev no_flags : Args
no_flags = record {
  config = codes "/etc/tinyproxy/tinyproxy.conf";
  daemon = false;
  version = false;
  debug = false;
}

abbrev all_addresses : List SocketAddr
all_addresses = record { ip = v4 0; port = 8888 } ∷ []

daemon_parent :
    main (record plain { fork = λ n. parent }) (record no_flags { daemon = true })
    ≡ err left_to_child
unfolding main from_file
daemon_parent = refl

plain_serves : main plain no_flags ≡ ok (default, all_addresses)
unfolding main from_file start get_listen_addresses semaphore
plain_serves = refl

-- A daemon that reads a file.
abbrev file_env : Env
file_env = record plain { files = λ path. some (ok (codes "Port 80\n")) }

abbrev daemon_flags : Args
daemon_flags = record no_flags { daemon = true }

abbrev port_80 : Config
port_80 = record default { port = 80 }

daemon_serves : main file_env daemon_flags ≡ ok (port_80, record { ip = v4 0; port = 80 } ∷ [])
unfolding main from_file start get_listen_addresses semaphore parse_config lines split trim
    is_whitespace starts_with split_once get equal to_lowercase parse_uint
daemon_serves = refl

main_debug_example : main plain (record no_flags { debug = true }) ≡ err panicked
unfolding from_file
main_debug_example =
    main_debug plain (record no_flags { debug = true }) (refl, refl) default refl refl refl
