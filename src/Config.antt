-- ===== src/Config.antt =====
-- src/config.rs: the configuration, its default, and the addresses that the server listens on.
pub mod Parse
pub mod Addresses
use tinyproxy_rust.Prelude.{
  ℕ, Bool, true, false, Option, none, some, List, [], ◌∷◌, is_empty, map, if◌then◌else◌,
}
use tinyproxy_rust.Std.Text.{Str, codes}
use tinyproxy_rust.Std.Net.{IpAddr, v4, SocketAddr}

pub record BasicAuthConfig : Type 0 where
  pub username : Str
  pub password : Str
  pub realm : Str

pub record UpstreamConfig : Type 0 where
  pub upstream_type : Str
  pub host : Str
  pub port : ℕ
  pub username : Option Str
  pub password : Option Str
  pub domain : Option Str

pub record ReverseProxyConfig : Type 0 where
  pub path : Str
  pub url : Str

pub record Config : Type 0 where
  pub port : ℕ
  pub bind_address : IpAddr
  pub listen_addresses : List IpAddr
  pub bind_same : Bool
  pub user : Option Str
  pub group : Option Str
  pub daemon : Bool
  pub pidfile : Option Str
  pub timeout : ℕ
  pub max_clients : ℕ
  pub max_requests_per_child : ℕ
  pub max_spare_servers : ℕ
  pub min_spare_servers : ℕ
  pub start_servers : ℕ
  pub logfile : Option Str
  pub syslog : Bool
  pub log_level : Str
  pub debug : Bool
  pub allow : List Str
  pub deny : List Str
  pub basic_auth : Option BasicAuthConfig
  pub upstream : List UpstreamConfig
  pub reverse_proxy : List ReverseProxyConfig
  pub transparent_proxy : Bool
  pub filter_file : Option Str
  pub filter_urls : Bool
  pub filter_extended : Bool
  pub filter_casesensitive : Bool
  pub anonymous : List Str
  pub via_proxy_name : Option Str
  pub x_tinyproxy : Bool
  pub add_headers : List (Str × Str)
  pub connect_ports : List ℕ
  pub disable_via_header : Bool
  pub stat_host : Option Str
  pub stat_file : Option Str
  pub error_files : List (ℕ × Str)
  pub default_error_file : Option Str
  pub buffer_size : ℕ
  pub connection_pool_size : ℕ

abbrev pub default : Config
default = record {
  port = 8888;
  bind_address = v4 0;
  listen_addresses = [];
  bind_same = false;
  user = some (codes "nobody");
  group = some (codes "nobody");
  daemon = false;
  pidfile = some (codes "/var/run/tinyproxy.pid");
  timeout = 600;
  max_clients = 100;
  max_requests_per_child = 0;
  max_spare_servers = 20;
  min_spare_servers = 5;
  start_servers = 10;
  logfile = some (codes "/var/log/tinyproxy.log");
  syslog = false;
  log_level = codes "Info";
  debug = false;
  allow = [];
  deny = [];
  basic_auth = none;
  upstream = [];
  reverse_proxy = [];
  transparent_proxy = false;
  filter_file = none;
  filter_urls = false;
  filter_extended = false;
  filter_casesensitive = false;
  anonymous = [];
  via_proxy_name = some (codes "tinyproxy");
  x_tinyproxy = false;
  add_headers = [];
  connect_ports = 443 ∷ 563 ∷ [];
  disable_via_header = false;
  stat_host = none;
  stat_file = none;
  error_files = [];
  default_error_file = none;
  buffer_size = 8192;
  connection_pool_size = 100;
}

abbrev pub socket_addr : ℕ → IpAddr → SocketAddr
socket_addr port addr = record { ip = addr; port = port }

unfoldable pub get_listen_addresses : Config → List SocketAddr
get_listen_addresses c =
    if is_empty c.listen_addresses
    then socket_addr c.port c.bind_address ∷ []
    else map (socket_addr c.port) c.listen_addresses
