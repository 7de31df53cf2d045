-- ===== src/Config/Parse.antt =====
-- `parse_config` of src/config.rs. An error is the text that `anyhow` shows.
pub mod WellFormed
mod Options
pub mod Laws
mod Added
pub mod Access
mod Tests
use tinyproxy_rust.Prelude.{
  ℕ, Bool, true, false, ◌||◌, Option, none, some, List, [], ◌∷◌, ◌++◌, is_empty, any, ◌==◌,
  if◌then◌else◌,
}
use tinyproxy_rust.Prelude.Results.{Result, ok, err, ok_or, ◌>>=◌}
use tinyproxy_rust.Std.Text.{Str, codes, equal, trim, is_whitespace, starts_with, split, split_once}
use tinyproxy_rust.Std.Text.Case.{Unicode, to_lowercase}
use tinyproxy_rust.Std.Text.Lines.{lines}
use tinyproxy_rust.Std.HashMap.{get}
use tinyproxy_rust.Std.Number.{parse_uint, u16_max, u64_max}
use tinyproxy_rust.Std.Net.{IpAddr, parse_ip}
use tinyproxy_rust.Http.{is_colon}
use tinyproxy_rust.Config.{Config, BasicAuthConfig, UpstreamConfig, default}

-- The keys that the file may set.
pub data Key : Type 0 where
  key_port key_bind key_listen key_bindsame key_user key_group key_pidfile key_timeout
        key_maxclients key_maxrequestsperchild key_logfile key_syslog key_loglevel key_allow
        key_deny key_basicauth key_upstream key_reverseonly key_filter key_filterurls
        key_filterextended key_filtercasesensitive key_anonymous key_viaproxyname key_xtinyproxy
        key_connectport key_disableviaheader key_stathost key_statfile key_errorfile
        key_defaulterrorfile :
      Key

abbrev keys : List (Str × Key)
keys =
    (codes "port", key_port)
    ∷ (codes "bind", key_bind)
    ∷ (codes "listen", key_listen)
    ∷ (codes "bindsame", key_bindsame)
    ∷ (codes "user", key_user)
    ∷ (codes "group", key_group)
    ∷ (codes "pidfile", key_pidfile)
    ∷ (codes "timeout", key_timeout)
    ∷ (codes "maxclients", key_maxclients)
    ∷ (codes "maxrequestsperchild", key_maxrequestsperchild)
    ∷ (codes "logfile", key_logfile)
    ∷ (codes "syslog", key_syslog)
    ∷ (codes "loglevel", key_loglevel)
    ∷ (codes "allow", key_allow)
    ∷ (codes "deny", key_deny)
    ∷ (codes "basicauth", key_basicauth)
    ∷ (codes "upstream", key_upstream)
    ∷ (codes "reverseonly", key_reverseonly)
    ∷ (codes "filter", key_filter)
    ∷ (codes "filterurls", key_filterurls)
    ∷ (codes "filterextended", key_filterextended)
    ∷ (codes "filtercasesensitive", key_filtercasesensitive)
    ∷ (codes "anonymous", key_anonymous)
    ∷ (codes "viaproxyname", key_viaproxyname)
    ∷ (codes "xtinyproxy", key_xtinyproxy)
    ∷ (codes "connectport", key_connectport)
    ∷ (codes "disableviaheader", key_disableviaheader)
    ∷ (codes "stathost", key_stathost)
    ∷ (codes "statfile", key_statfile)
    ∷ (codes "errorfile", key_errorfile)
    ∷ (codes "defaulterrorfile", key_defaulterrorfile)
    ∷ []

abbrev yes_words : List Str
yes_words = codes "yes" ∷ codes "true" ∷ codes "on" ∷ codes "1" ∷ []

abbrev no_words : List Str
no_words = codes "no" ∷ codes "false" ∷ codes "off" ∷ codes "0" ∷ []

pub parse_bool : ⦃u : Unicode⦄ → Str → Result Str Bool
parse_bool value =
    let word = to_lowercase value in
    if any (equal word) yes_words
    then ok true
    else if any (equal word) no_words
    then ok false
    else err (codes "Invalid boolean value: " ++ value)

pub upstream_of : Str → List Str → Result Str UpstreamConfig
upstream_of value (kind ∷ host ∷ port ∷ more) = elim (parse_uint u16_max port) [
  | none ↦ err (codes "invalid port")
  | some n ↦ ok (record {
    upstream_type = kind;
    host = host;
    port = n;
    username = none;
    password = none;
    domain = none;
  })
]
upstream_of value _ = err (codes "Invalid upstream format: " ++ value)

pub parse_upstream : Str → Result Str UpstreamConfig
unfolding upstream_of
parse_upstream value = upstream_of value (split is_colon value)

-- `HashMap::insert` on a map from codes.
pub insert_code : ℕ → Str → List (ℕ × Str) → List (ℕ × Str)
insert_code code file [] = (code, file) ∷ []
insert_code code file ((k, v) ∷ m) =
    let rest = insert_code code file m in if k == code then (k, file) ∷ m else (k, v) ∷ rest

-- A number, with the error's context.
pub number : ℕ → Str → Str → Result Str ℕ
number top context value = ok_or (parse_uint top value) (context ++ value)

account_of : Option (Str × Str) → Option BasicAuthConfig → Option BasicAuthConfig
account_of none kept = kept
account_of (some (username, password)) kept =
    some (record { username = username; password = password; realm = codes "Tinyproxy" })

pub add_upstream : Result Str UpstreamConfig → List UpstreamConfig → List UpstreamConfig
add_upstream (ok upstream) listed = listed ++ upstream ∷ []
add_upstream (err e) listed = listed

pub add_error_file : Option (Str × Str) → List (ℕ × Str) → List (ℕ × Str)
unfolding insert_code
add_error_file none files = files
add_error_file (some (code, file)) files = elim (parse_uint u16_max code) [
  | none ↦ files
  | some n ↦ insert_code n file files
]

-- The `match` on the key.
pub apply : ⦃u : Unicode⦄ → Key → Str → Config → Result Str Config
unfolding parse_bool parse_upstream number account_of add_upstream add_error_file
apply key_port value c = do
  n ← number u16_max (codes "Invalid port value: ") value
  ok (record c { port = n })
apply key_bind value c = do
  addr ← ok_or (parse_ip value) (codes "Invalid bind address: " ++ value)
  ok (record c { bind_address = addr })
apply key_listen value c = do
  addr ← ok_or (parse_ip value) (codes "Invalid listen address: " ++ value)
  ok (record c { listen_addresses = c.listen_addresses ++ addr ∷ [] })
apply key_bindsame value c = do flag ← parse_bool value; ok (record c { bind_same = flag })
apply key_user value c = ok (record c { user = some value })
apply key_group value c = ok (record c { group = some value })
apply key_pidfile value c = ok (record c { pidfile = some value })
apply key_timeout value c = do
  n ← number u64_max (codes "Invalid timeout value: ") value
  ok (record c { timeout = n })
apply key_maxclients value c = do
  n ← number u64_max (codes "Invalid max clients value: ") value
  ok (record c { max_clients = n })
apply key_maxrequestsperchild value c = do
  n ← number u64_max (codes "Invalid max requests per child value: ") value
  ok (record c { max_requests_per_child = n })
apply key_logfile value c = ok (record c { logfile = some value })
apply key_syslog value c = do flag ← parse_bool value; ok (record c { syslog = flag })
apply key_loglevel value c = ok (record c { log_level = value })
apply key_allow value c = ok (record c { allow = c.allow ++ value ∷ [] })
apply key_deny value c = ok (record c { deny = c.deny ++ value ∷ [] })
apply key_basicauth value c =
    ok (record c { basic_auth = account_of (split_once is_colon value) c.basic_auth })
apply key_upstream value c =
    ok (record c { upstream = add_upstream (parse_upstream value) c.upstream })
apply key_reverseonly value c = do
  flag ← parse_bool value
  ok (record c { transparent_proxy = flag })
apply key_filter value c = ok (record c { filter_file = some value })
apply key_filterurls value c = do flag ← parse_bool value; ok (record c { filter_urls = flag })
apply key_filterextended value c = do
  flag ← parse_bool value
  ok (record c { filter_extended = flag })
apply key_filtercasesensitive value c = do
  flag ← parse_bool value
  ok (record c { filter_casesensitive = flag })
apply key_anonymous value c = ok (record c { anonymous = c.anonymous ++ value ∷ [] })
apply key_viaproxyname value c = ok (record c { via_proxy_name = some value })
apply key_xtinyproxy value c = do flag ← parse_bool value; ok (record c { x_tinyproxy = flag })
apply key_connectport value c = do
  port ← number u16_max (codes "Invalid connect port value: ") value
  ok (record c { connect_ports = c.connect_ports ++ port ∷ [] })
apply key_disableviaheader value c = do
  flag ← parse_bool value
  ok (record c { disable_via_header = flag })
apply key_stathost value c = ok (record c { stat_host = some value })
apply key_statfile value c = ok (record c { stat_file = some value })
apply key_errorfile value c =
    ok (record c { error_files = add_error_file (split_once is_whitespace value) c.error_files })
apply key_defaulterrorfile value c = ok (record c { default_error_file = some value })

-- An unknown key is logged.
apply_known : ⦃u : Unicode⦄ → Option Key → Str → Config → Result Str Config
unfolding apply
apply_known none value c = ok c
apply_known (some key) value c = apply key value c

apply_parts : ⦃u : Unicode⦄ → Option (Str × Str) → Config → Result Str Config
unfolding apply_known
apply_parts none c = ok c
apply_parts (some (key, value)) c = apply_known (get (to_lowercase key) keys) (trim value) c

pub parse_line : ⦃u : Unicode⦄ → Str → Config → Result Str Config
unfolding apply_parts
parse_line line c =
    let trimmed = trim line in
    if is_empty trimmed || starts_with (codes "#") trimmed
    then ok c
    else apply_parts (split_once is_whitespace trimmed) c

pub parse_lines : ⦃u : Unicode⦄ → List Str → Config → Result Str Config
unfolding parse_line
parse_lines [] c = ok c
parse_lines (line ∷ rest) c = do c' ← parse_line line c; parse_lines rest c'

unfoldable pub parse_config : ⦃u : Unicode⦄ → Str → Result Str Config
unfolding parse_lines
parse_config content = parse_lines (lines content) default

-- `files` gives what is at a path: nothing, or the outcome of reading it.
unfoldable pub from_file : ⦃u : Unicode⦄ → (Str → Option (Result Str Str)) → Str → Result Str Config
from_file files path = elim (files path) [
  | none ↦ ok default
  | some content ↦ content >>= parse_config
]
