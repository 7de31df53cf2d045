-- ===== src/Main/Steps.antt =====
-- When each step of src/main.rs on the way to the listeners succeeds.
use tinyproxy_rust.Prelude.{
  ◌-◌, ◌^◌, ◌≤◌, ◌≢◌, [], Option, none, some, leb, leb→le, le→leb, ◌≡◌, ◌↔◌, ◌⊎◌, refl, ap, sym,
  ◌∙◌, inl, inr, false, ◌||◌, Bool-cases, List, arith,
}
use tinyproxy_rust.Prelude.Results.{Result, ok, err, ok-inj, ◌>>=◌, >>=-eq-ok}
use tinyproxy_rust.Std.Text.{Str, codes}
use tinyproxy_rust.Std.Text.Case.{Unicode}
use tinyproxy_rust.Std.Net.{SocketAddr}
use tinyproxy_rust.Config.{Config, default}
use tinyproxy_rust.Config.Parse.{parse_config, from_file}
use tinyproxy_rust.Server.{semaphore, max_permits}
use tinyproxy_rust.Server.Run.{start}
use tinyproxy_rust.Server.Run.Laws.{interfaces, AtPort, AllFree}
use tinyproxy_rust.Main.{Args, Fork, parent, child, fork_off, call, new_server, Env, daemonize}

-- The configuration of a file: its settings, or the default if there is no file.
abbrev pub Loads : ⦃u : Unicode⦄ → Env → Str → Config → Type 0
Loads env path config =
    ((env.files path ≡ none) × (config ≡ default))
    ⊎ ((content : Str) × (env.files path ≡ some (ok content)) × (parse_config content ≡ ok config))

-- The process is the child of a child, in a session of its own.
pub record IsDetached (env : Env) : Type 0 where
  pub first_child : env.fork 0 ≡ child
  pub session : env.setsid ≡ none
  pub second_child : env.fork 1 ≡ child
  pub at_root : env.set_current_dir ≡ none
  pub null_open : env.open_null ≡ none

-- All that has to go well.
pub record IsServed ⦃u : Unicode⦄ (env : Env) (args : Args) (config : Config)
    (listeners : List SocketAddr) : Type 0 where
  pub not_version : args.version ≡ false
  pub not_debug : args.debug ≡ false
  pub loaded : Loads env args.config config
  pub quiet : config.debug ≡ false
  pub detached : ((args.daemon || config.daemon) ≡ false) ⊎ IsDetached env
  pub few : config.max_clients ≤ 2 ^ 61 - 1
  pub placed : AtPort config.port (interfaces config.bind_address config.listen_addresses) listeners
  pub bound : AllFree env.binds [] listeners
  pub some_listener : listeners ≢ []

-- The steps of the code, of which each succeeds.
pub record Succeeds ⦃u : Unicode⦄ (env : Env) (args : Args) (config : Config)
    (listeners : List SocketAddr) : Type 0 where
  pub not_version : args.version ≡ false
  pub not_debug : args.debug ≡ false
  pub loaded : from_file env.files args.config ≡ ok config
  pub quiet : config.debug ≡ false
  pub detached : ((args.daemon || config.daemon) ≡ false) ⊎ (daemonize env ≡ ok tt)
  pub created : new_server config ≡ ok tt
  pub bound : start env.binds config ≡ ok listeners

opened_iff :
    ⦃u : Unicode⦄ (o : Option (Result Str Str)) (config : Config)
    → ((elim o [ none ↦ ok default | some content ↦ content >>= parse_config ]) ≡ ok config) ↔ (
        ((o ≡ none) × (config ≡ default))
        ⊎ ((content : Str) × (o ≡ some (ok content)) × (parse_config content ≡ ok config)))
opened_iff none config = (
  (λ e. inl (refl, sym (ok-inj e))),
  elim [ inl (_, e) ↦ ap ok (sym e) | inr (content, n, e) ↦ cc n ],
)
opened_iff (some (ok text)) config = (
  (λ e. inr (text, refl, e)),
  elim [
    | inl (n, e) ↦ cc n
    | inr (content, n, e) ↦ let same : text ≡ content = cc n in ap parse_config same ∙ e
  ],
)
opened_iff (some (err x)) config =
    ((λ e. cc e), elim [ inl (n, e) ↦ cc n | inr (content, n, e) ↦ cc n ])

pub from_file-Loads :
    ⦃u : Unicode⦄ (env : Env) (path : Str) (config : Config)
    → (from_file env.files path ≡ ok config) ↔ Loads env path config
unfolding from_file
from_file-Loads env path config = opened_iff (env.files path) config

fork_off-ok : (f : Fork) → fork_off f ≡ ok tt → f ≡ child
unfolding fork_off
fork_off-ok parent e = cc e
fork_off-ok child e = refl
fork_off-ok (Fork.failed x) e = cc e

call-ok : (context : Str) (o : Option Str) → call context o ≡ ok tt → o ≡ none
unfolding call
call-ok context none e = refl
call-ok context (some x) e = cc e

pub daemonize_iff : (env : Env) → (daemonize env ≡ ok tt) ↔ IsDetached env
unfolding daemonize
daemonize_iff env = (
  (λ e.
      let (_, f, r) = >>=-eq-ok (fork_off (env.fork 0)) _ e in
      let (_, s, r2) = >>=-eq-ok (call (codes "Failed to create new session: ") env.setsid) _ r in
      let (_, g, r3) = >>=-eq-ok (fork_off (env.fork 1)) _ r2 in
      let (_, d, n) =
        >>=-eq-ok (call (codes "Failed to change directory to /: ") env.set_current_dir) _ r3 in
      record {
        first_child = fork_off-ok _ f;
        session = call-ok (codes "Failed to create new session: ") _ s;
        second_child = fork_off-ok _ g;
        at_root = call-ok (codes "Failed to change directory to /: ") _ d;
        null_open = call-ok (codes "Failed to open /dev/null: ") _ n;
      }),
  (λ d. rw (d.first_child, d.session, d.second_child, d.at_root, d.null_open, fork_off, call) refl),
)

pub new_server-few : (config : Config) → new_server config ≡ ok tt → config.max_clients ≤ 2 ^ 61 - 1
unfolding new_server semaphore
new_server-few config e = elim (Bool-cases (leb config.max_clients max_permits)) [
  | inl y ↦ leb→le config.max_clients max_permits y
  | inr n ↦ ground (arith, n, e)
]

pub few-new_server : (config : Config) → config.max_clients ≤ 2 ^ 61 - 1 → new_server config ≡ ok tt
unfolding new_server semaphore
few-new_server config few = rw (le→leb config.max_clients max_permits few, new_server) refl
