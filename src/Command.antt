-- ===== src/Command.antt =====
-- cmd/interlock: where run takes its configuration from, and the configuration that spec prints.
pub mod Source
use interlock_old.Prelude.{
  String, ◌<>◌, Bool, true, false, ◌&&◌, not, List, [], ◌∷◌, Option, none, some, ◌==◌,
  if◌then◌else◌,
}
use interlock_old.Prelude.Int.{pos}
use interlock_old.Go.Outcome.{Outcome, ok, err, panic, ◌>>=◌}
use interlock_old.Config
use interlock_old.Config.{ExtensionConfig, set_config_defaults, parse_config}
use interlock_old.Server.Extensions.{to_lower}

abbrev pub default_config : String
default_config =
    "ListenAddr = \":8080\"\nDockerURL = \"unix:///var/run/docker.sock\"\nEnableMetrics = true\n"

abbrev pub kv_config_key : String
kv_config_key = "interlock/v1/config"

-- A store of libkv.
pub record Store : Type 0 where
  pub exists : String → Outcome Bool
  pub get : String → Outcome String

-- The flags of the command, and the environment variable INTERLOCK_CONFIG; a text that is not set is empty.
pub record Arguments : Type 0 where
  pub env_config : String
  pub config : String
  pub discovery : String
  pub discovery_tls_ca_cert : String
  pub discovery_tls_cert : String
  pub discovery_tls_key : String

-- The kinds of libkv's stores; another scheme leaves the kind empty.
pub data StoreKind : Type 0 where
  no_kind consul etcd : StoreKind

unfoldable pub kind_of : String → StoreKind
unfolding to_lower
kind_of scheme =
    let kind = to_lower scheme in
    if kind == "consul" then consul else if kind == "etcd" then etcd else no_kind

-- What run asks of other packages: url.Parse (the scheme and the host), tlsconfig.Client, libkv.NewStore, and
-- ioutil.ReadFile.
pub record Outside (Tls : Type 0) : Type 0 where
  pub parse_url : String → Outcome (String × String)
  pub tls_client : String → String → String → Outcome Tls
  pub new_store : StoreKind → String → Option Tls → Outcome Store
  pub read_file : String → Outcome String

unfoldable pub stored_value : Store → Bool → Outcome String
stored_value kv false = ok default_config
stored_value kv true = do
  value ← kv.get kv_config_key
  ok (if value == "" then default_config else value)

-- The value of the key; the default where it is missing or empty.
unfoldable pub stored_config : Store → Outcome String
unfolding stored_value
stored_config kv = do exists ← kv.exists kv_config_key; stored_value kv exists

unfoldable pub not_missing : String → Outcome String
not_missing text =
    if text == ""
    then err "You must specify a config from a file, environment variable, or key value store"
    else ok text

module _ {Tls : Type 0} (outside : Outside Tls) where
  unfoldable pub get_kv_store : String → Option Tls → Outcome Store
  unfolding kind_of
  get_kv_store addr tls = do
    url ← outside.parse_url addr
    outside.new_store (kind_of url.0) url.1 tls

  -- TLS is used if all of its three flags are set.
  unfoldable pub kv_tls : Arguments → Outcome (Option Tls)
  kv_tls a =
      if not (a.discovery_tls_ca_cert == "")
        && (not (a.discovery_tls_cert == "") && not (a.discovery_tls_key == ""))
      then (do
        tls ← outside.tls_client a.discovery_tls_ca_cert a.discovery_tls_cert a.discovery_tls_key
        ok (some tls))
      else ok none

  unfoldable pub discovered : Arguments → Outcome String
  unfolding kv_tls get_kv_store stored_config
  discovered a =
      if a.discovery == ""
      then ok a.env_config
      else do tls ← kv_tls a; kv ← get_kv_store a.discovery tls; stored_config kv

  -- The file is read only if there is no text yet.
  unfoldable pub or_file : Arguments → String → Outcome String
  or_file a text =
      if not (a.config == "") && text == "" then outside.read_file a.config else ok text

  -- The text of the configuration; each log.Fatal is an error.
  unfoldable pub config_text : Arguments → Outcome String
  unfolding discovered or_file not_missing
  config_text a = do text ← discovered a; found ← or_file a text; not_missing found

-- run, up to the start of the server; `decode` is the TOML decoder of ParseConfig.
unfoldable pub run_config :
    {Tls : Type 0}
    → (String → Outcome Config.Config)
    → Outside Tls
    → Arguments
    → Outcome Config.Config
unfolding config_text parse_config
run_config decode outside a = do text ← config_text outside a; parse_config decode text

-- The zero value of config.ExtensionConfig
abbrev pub zero_extension : ExtensionConfig
zero_extension = record {
  name = "";
  config_path = "";
  config_base_path = "";
  pid_path = "";
  template_path = "";
  backend_override_address = "";
  connect_timeout = pos 0;
  server_timeout = pos 0;
  client_timeout = pos 0;
  max_conn = pos 0;
  port = pos 0;
  syslog_addr = "";
  admin_user = "";
  admin_pass = "";
  ssl_cert_path = "";
  ssl_cert = "";
  ssl_port = pos 0;
  ssl_opts = "";
  ssl_default_dh_param = pos 0;
  ssl_server_verify = "";
  dh_param = false;
  dh_param_path = "";
  nginx_plus_enabled = false;
  user = "";
  worker_processes = pos 0;
  rlimit_no_file = pos 0;
  proxy_connect_timeout = pos 0;
  proxy_send_timeout = pos 0;
  proxy_read_timeout = pos 0;
  send_timeout = pos 0;
  ssl_ciphers = "";
  ssl_protocols = "";
  stats_interval = "";
  stats_backend_type = "";
  stats_prometheus_push_gateway_url = "";
  stats_influxdb_address = "";
  stats_influxdb_user = "";
  stats_influxdb_password = "";
  stats_influxdb_database = "";
  stats_influxdb_precision = "";
  rules = [];
}

-- The configuration that spec prints.
unfoldable pub spec_config : Config.Config
unfolding set_config_defaults
spec_config = record {
  listen_addr = ":8080";
  docker_url = "unix:///var/run/docker.sock";
  tls_ca_cert = "";
  tls_cert = "";
  tls_key = "";
  allow_insecure = false;
  enable_metrics = true;
  poll_interval = "";
  extensions =
      set_config_defaults (record zero_extension {
        name = "nginx";
        config_path = "/etc/nginx/nginx.conf";
        pid_path = "/var/run/nginx.pid";
        template_path = "/etc/interlock/nginx.conf.template";
      })
      ∷ [];
  rules = [];
}
