-- ===== src/Main/Laws.antt =====
-- When the process of src/main.rs serves.
use tinyproxy_rust.Prelude.{◌≡◌, refl, true, false}
use tinyproxy_rust.Prelude.Results.{ok, err}
use tinyproxy_rust.Std.Text.Case.{Unicode}
use tinyproxy_rust.Config.{Config}
use tinyproxy_rust.Config.Parse.{from_file}
use tinyproxy_rust.Main.{
  Args, Env, panicked, init_logger, load, with_debug, set_level, run_server, load_and_serve,
  after_logger, main,
}

-- As env_logger documents, the logger can be initialised once.
abbrev pub InitOnce : Env → Type 0
InitOnce env = (env.init_returns 0 ≡ true) × (env.init_returns 1 ≡ false)

module _ ⦃u : Unicode⦄ (env : Env) (args : Args) (once : InitOnce env) where
  -- With the debug flag the second initialisation of the logger panics, and nothing is served.
  pub main_debug :
      (config : Config)
      → args.version ≡ false
      → args.debug ≡ true
      → from_file env.files args.config ≡ ok config
      → main env args ≡ err panicked
  unfolding main after_logger load_and_serve load with_debug run_server set_level init_logger
  main_debug config v d e = rw (once.0, v, e, d, once.1) refl
