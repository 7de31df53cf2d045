-- ===== src/Main.antt =====
-- src/main.rs: from the command line to the end of the process. What the crates clap, env_logger and
-- nix and the system answer is a parameter.
pub mod Steps
pub mod Laws
mod Tests
use tinyproxy_rust.Prelude.{
  ℕ, Bool, true, false, ◌||◌, Option, none, some, List, ◌++◌, if◌then◌else◌,
}
use tinyproxy_rust.Prelude.Results.{Result, ok, err, ◌>>=◌, ◌>>◌}
use tinyproxy_rust.Std.Text.{Str, codes}
use tinyproxy_rust.Std.Text.Case.{Unicode}
use tinyproxy_rust.Std.Net.{SocketAddr}
use tinyproxy_rust.Config.{Config}
use tinyproxy_rust.Config.Parse.{from_file}
use tinyproxy_rust.Server.{semaphore}
use tinyproxy_rust.Server.Run.{Binds, start}

-- What clap makes of the command line.
pub record Args : Type 0 where
  pub config : Str
  pub daemon : Bool
  pub version : Bool
  pub debug : Bool

-- The outcome of `fork`, as each of the two processes sees it.
pub data Fork : Type 0 where
  parent child : Fork
  failed : Str → Fork

-- `init_returns n`: whether the call of `Builder::init` returns when `n` calls came before it; it
-- panics otherwise. `fork n` is the outcome of the call with the number `n`. The other calls of the
-- system give an error or none.
pub record Env : Type 0 where
  pub init_returns : ℕ → Bool
  pub files : Str → Option (Result Str Str)
  pub fork : ℕ → Fork
  pub setsid : Option Str
  pub set_current_dir : Option Str
  pub open_null : Option Str
  pub binds : Binds

-- How the process ends before it serves: the version was printed; `exit(1)` for the configuration or
-- for the server; a panic; `exit(0)` in the parent of a daemon; an error that `main` returns.
pub data Exit : Type 0 where
  version_shown : Exit
  load_failed : Str → Exit
  panicked : Exit
  left_to_child : Exit
  daemon_failed : Str → Exit
  serve_failed : Str → Exit

-- The configuration and the listeners of a server that runs until it is shut down.
abbrev pub Serving : Type 0
Serving = Config × List SocketAddr

init_logger : Env → ℕ → Result Exit (Unit {0})
init_logger env n = if env.init_returns n then ok tt else err panicked

pub fork_off : Fork → Result Exit (Unit {0})
fork_off parent = err left_to_child
fork_off child = ok tt
fork_off (failed e) = err (daemon_failed (codes "Failed to fork: " ++ e))

-- A call of the system, with the context of its error.
pub call : Str → Option Str → Result Exit (Unit {0})
call context none = ok tt
call context (some e) = err (daemon_failed (context ++ e))

pub daemonize : Env → Result Exit (Unit {0})
unfolding fork_off call
daemonize env = do
  fork_off (env.fork 0)
  call (codes "Failed to create new session: ") env.setsid
  fork_off (env.fork 1)
  call (codes "Failed to change directory to /: ") env.set_current_dir
  call (codes "Failed to open /dev/null: ") env.open_null

load : Result Str Config → Result Exit Config
load (ok config) = ok config
load (err e) = err (load_failed e)

with_debug : Bool → Config → Config
with_debug debug config = if debug then record config { debug = true } else config

-- The second logger, for the debug level.
set_level : Env → Config → Result Exit (Unit {0})
unfolding init_logger
set_level env config = if config.debug then init_logger env 1 else ok tt

become_daemon : Env → Args → Config → Result Exit (Unit {0})
unfolding daemonize
become_daemon env args config = if args.daemon || config.daemon then daemonize env else ok tt

-- `ProxyServer::new`: the semaphore panics if there are too many clients.
pub new_server : Config → Result Exit (Unit {0})
new_server config = elim (semaphore config.max_clients) [
  | none ↦ err panicked
  | some permits ↦ ok tt
]

serve : Config → Result Str (List SocketAddr) → Result Exit Serving
serve config (ok listeners) = ok (config, listeners)
serve config (err e) = err (serve_failed e)

run_server : Env → Args → Config → Result Exit Serving
unfolding set_level become_daemon new_server serve
run_server env args config = do
  set_level env config
  become_daemon env args config
  new_server config
  serve config (start env.binds config)

module _ ⦃u : Unicode⦄ where
  load_and_serve : Env → Args → Result Exit Serving
  unfolding load with_debug run_server
  load_and_serve env args = do
    config ← load (from_file env.files args.config)
    run_server env args (with_debug args.debug config)

  after_logger : Env → Args → Result Exit Serving
  unfolding load_and_serve
  after_logger env args = if args.version then err version_shown else load_and_serve env args

  unfoldable pub main : Env → Args → Result Exit Serving
  unfolding init_logger after_logger
  main env args = do init_logger env 0; after_logger env args
