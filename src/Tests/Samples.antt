-- ===== src/Tests/Samples.antt =====
-- A small Docker host: two web containers under one domain, the second one with an alias and on an
-- overlay network, and a container without a domain.
use interlock_old.Prelude.{String, false, List, [], ◌∷◌, ◌==◌, if◌then◌else◌}
use interlock_old.Prelude.Int.{pos}
use interlock_old.Go.Outcome.{Outcome, ok, err}
use interlock_old.Go.Maps.{Map}
use interlock_old.Platform.{
  Platform, Container, ContainerConfig, ContainerJson, NetworkResource, PortBinding, PortMap,
}
use interlock_old.Config.{ExtensionConfig}
use interlock_old.Go.Text.{slice_to, slice_from}
use interlock_old.Go.Maps.{has_key, append_at}
use interlock_old.Routing.{find_route}
use interlock_old.Address.{find_backend}
use interlock_old.Labels

abbrev pub extension : String → ExtensionConfig
extension name = record {
  name = name;
  config_path = "/etc/proxy.conf";
  config_base_path = "/etc";
  pid_path = "";
  template_path = "";
  backend_override_address = "";
  connect_timeout = pos 0;
  server_timeout = pos 0;
  client_timeout = pos 0;
  max_conn = pos 0;
  port = pos 80;
  syslog_addr = "";
  admin_user = "";
  admin_pass = "";
  ssl_cert_path = "/certs";
  ssl_cert = "";
  ssl_port = pos 443;
  ssl_opts = "";
  ssl_default_dh_param = pos 0;
  ssl_server_verify = "";
  dh_param = false;
  dh_param_path = "";
  nginx_plus_enabled = false;
  user = "";
  worker_processes = pos 0;
  rlimit_no_file = pos 0;
  proxy_connect_timeout = pos 0;
  proxy_send_timeout = pos 0;
  proxy_read_timeout = pos 0;
  send_timeout = pos 0;
  ssl_ciphers = "";
  ssl_protocols = "";
  stats_interval = "";
  stats_backend_type = "";
  stats_prometheus_push_gateway_url = "";
  stats_influxdb_address = "";
  stats_influxdb_user = "";
  stats_influxdb_password = "";
  stats_influxdb_database = "";
  stats_influxdb_precision = "";
  rules = [];
}

abbrev pub configured : Map String → ContainerConfig
configured labels = record {
  hostname = "web";
  domainname = "local";
  image = "app";
  exposed_ports = "80/tcp" ∷ [];
  labels = labels;
}

abbrev pub published : String → List PortBinding
published port = record { host_ip = "10.0.0.9"; host_port = port } ∷ []

abbrev pub inspected : String → ContainerConfig → PortMap → ContainerJson
inspected id config ports = record {
  id = id;
  name = "/web";
  config = config;
  ports = ports;
  ports_again = ports;
  networks = [];
}

abbrev pub first_info : ContainerJson
first_info =
    inspected "aaaaaaaaaaaaaaaa" (configured (("interlock.ssl_only", "") ∷ []))
      (("80/tcp", published "32768") ∷ [])

abbrev pub second_info : ContainerJson
second_info =
    inspected "bbbbbbbbbbbbbbbb"
      (configured (
        ("interlock.network", "blue")
        ∷ ("interlock.alias_domain.0", "www.local")
        ∷ ("interlock.balance_algorithm", "leastconn")
        ∷ ("interlock.health_check", "httpchk")
        ∷ []))
      (("80/tcp", []) ∷ [])

abbrev pub bare_info : ContainerJson
bare_info = inspected "cccccccccccccccc" (record (configured []) { domainname = "" }) []

abbrev pub inspect : String → Outcome ContainerJson
inspect id =
    if id == "dddddddddddd"
    then ok bare_info
    else if id == "aaaaaaaaaaaaaaaa"
    then ok first_info
    else if id == "bbbbbbbbbbbbbbbb"
    then ok second_info
    else if id == "aaaaaaaaaaaa"
    then ok first_info
    else if id == "bbbbbbbbbbbb"
    then ok second_info
    else if id == "dddddddddddddddd"
    then ok bare_info
    else if id == "cccccccccccccccc"
    then ok bare_info
    else err "no such container"

abbrev pub blue : NetworkResource
blue = record { name = "blue"; containers = ("bbbbbbbbbbbbbbbb", "172.18.0.2/16") ∷ [] }

abbrev pub platform : Platform
platform = record {
  container_inspect = inspect;
  network_inspect = λ n. if n == "blue" then ok blue else err "no such network";
  parse_cidr = λ s. if s == "172.18.0.2/16" then ok "172.18.0.2" else err "invalid CIDR address";
}

abbrev pub listed : String → Container
listed id = record {
  id = id;
  names = "/web" ∷ [];
  labels = [];
  state = "running";
  networks = [];
  public_ports = [];
}

abbrev pub containers : List Container
containers = listed "aaaaaaaaaaaaaaaa" ∷ listed "bbbbbbbbbbbbbbbb" ∷ []

-- What a run of a generator computes with, for a test's `unfolding` line.
unfoldable pub generation : Unit {0}
unfolding slice_to slice_from has_key append_at find_route find_backend Labels.alias_domains
    Labels.context_root_rewrite Labels.ssl_enabled Labels.ssl_cert_name Labels.ssl_cert_key
    Labels.ssl_only Labels.ssl_backend Labels.websocket_endpoints Labels.ip_hash
    Labels.health_check_interval Labels.health_check Labels.backend_options
    Labels.ssl_backend_tls_verify Labels.balance_algorithm
generation = tt
