-- ===== src/Config.antt =====
-- config/config.go and config/utils.go: the configuration, and the defaults of missing entries.
pub mod Defaults
use interlock_old.Prelude.{String, Bool, List, [], ◌∷◌, ◌==◌, if◌then◌else◌}
use interlock_old.Prelude.Int.{ℤ, pos, is_zero}
use interlock_old.Go.Maps.{Map}
use interlock_old.Go.Outcome.{Outcome, ok, ◌>>=◌}

pub record Rule : Type 0 where
  pub type : String
  pub regex : String

pub record ExtensionConfig : Type 0 where
  pub name : String
  pub config_path : String
  pub config_base_path : String
  pub pid_path : String
  pub template_path : String
  pub backend_override_address : String
  pub connect_timeout : ℤ
  pub server_timeout : ℤ
  pub client_timeout : ℤ
  pub max_conn : ℤ
  pub port : ℤ
  pub syslog_addr : String
  pub admin_user : String
  pub admin_pass : String
  pub ssl_cert_path : String
  pub ssl_cert : String
  pub ssl_port : ℤ
  pub ssl_opts : String
  pub ssl_default_dh_param : ℤ
  pub ssl_server_verify : String
  pub dh_param : Bool
  pub dh_param_path : String
  pub nginx_plus_enabled : Bool
  pub user : String
  pub worker_processes : ℤ
  pub rlimit_no_file : ℤ
  pub proxy_connect_timeout : ℤ
  pub proxy_send_timeout : ℤ
  pub proxy_read_timeout : ℤ
  pub send_timeout : ℤ
  pub ssl_ciphers : String
  pub ssl_protocols : String
  pub stats_interval : String
  pub stats_backend_type : String
  pub stats_prometheus_push_gateway_url : String
  pub stats_influxdb_address : String
  pub stats_influxdb_user : String
  pub stats_influxdb_password : String
  pub stats_influxdb_database : String
  pub stats_influxdb_precision : String
  pub rules : Map Rule

pub record Config : Type 0 where
  pub listen_addr : String
  pub docker_url : String
  pub tls_ca_cert : String
  pub tls_cert : String
  pub tls_key : String
  pub allow_insecure : Bool
  pub enable_metrics : Bool
  pub poll_interval : String
  pub extensions : List ExtensionConfig
  pub rules : Map Rule

-- `if x == 0 { x = d }`
unfoldable pub or_int : ℤ → ℤ → ℤ
or_int x d = if is_zero x then d else x

-- `if s == "" { s = d }`
unfoldable pub or_text : String → String → String
or_text s d = if s == "" then d else s

-- The tests of these functions read the field that they set and no other, so the assignments may
-- stand in one record.
unfoldable pub set_haproxy_config_defaults : ExtensionConfig → ExtensionConfig
set_haproxy_config_defaults c = record c {
  connect_timeout = or_int c.connect_timeout (pos 5000);
  server_timeout = or_int c.server_timeout (pos 10000);
  client_timeout = or_int c.client_timeout (pos 10000);
  admin_user = or_text c.admin_user "admin";
  admin_pass = or_text c.admin_pass "";
  ssl_default_dh_param = or_int c.ssl_default_dh_param (pos 1024);
  ssl_server_verify = or_text c.ssl_server_verify "required";
}

unfoldable pub set_nginx_config_defaults : ExtensionConfig → ExtensionConfig
set_nginx_config_defaults c = record c {
  user = or_text c.user "www-data";
  worker_processes = or_int c.worker_processes (pos 2);
  rlimit_no_file = or_int c.rlimit_no_file (pos 65535);
  proxy_connect_timeout = or_int c.proxy_connect_timeout (pos 600);
  proxy_send_timeout = or_int c.proxy_send_timeout (pos 600);
  proxy_read_timeout = or_int c.proxy_read_timeout (pos 600);
  send_timeout = or_int c.send_timeout (pos 600);
  ssl_ciphers = or_text c.ssl_ciphers "HIGH:!aNULL:!MD5";
  ssl_protocols = or_text c.ssl_protocols "SSLv3 TLSv1 TLSv1.1 TLSv1.2";
}

unfoldable pub set_beacon_config_defaults : ExtensionConfig → ExtensionConfig
set_beacon_config_defaults c = record c {
  stats_interval = or_text c.stats_interval "30s";
  stats_influxdb_precision = or_text c.stats_influxdb_precision "s";
}

-- SetConfigDefaults, whose error is always nil
unfoldable pub set_config_defaults : ExtensionConfig → ExtensionConfig
set_config_defaults c =
    let c' = record c { max_conn = or_int c.max_conn (pos 1024); port = or_int c.port (pos 80) } in
    if c.name == "haproxy"
    then set_haproxy_config_defaults c'
    else if c.name == "nginx"
    then set_nginx_config_defaults c'
    else if c.name == "beacon"
    then set_beacon_config_defaults c'
    else c'

-- the loop of ParseConfig
unfoldable pub set_all_defaults : Map Rule → List ExtensionConfig → List ExtensionConfig
set_all_defaults rules [] = []
set_all_defaults rules (ext ∷ exts) =
    record (set_config_defaults ext) { rules = rules } ∷ set_all_defaults rules exts

-- ParseConfig, over a decoder of TOML
unfoldable pub parse_config : (String → Outcome Config) → String → Outcome Config
parse_config decode text = do
  cfg ← decode text
  ok (record cfg { extensions = set_all_defaults cfg.rules cfg.extensions })
