-- ===== src/Ext.antt =====
-- The labels of ext/ext.go, by which a container or an Interlock node is recognised and configured.
use interlock_old.Prelude.{String}

abbrev pub app_label : String
app_label = "interlock.app"

abbrev pub ext_name_label : String
ext_name_label = "interlock.ext.name"

abbrev pub hostname_label : String
hostname_label = "interlock.hostname"

abbrev pub network_label : String
network_label = "interlock.network"

abbrev pub domain_label : String
domain_label = "interlock.domain"

abbrev pub ssl_label : String
ssl_label = "interlock.ssl"

abbrev pub ssl_only_label : String
ssl_only_label = "interlock.ssl_only"

abbrev pub ssl_backend_label : String
ssl_backend_label = "interlock.ssl_backend"

abbrev pub ssl_backend_tls_verify_label : String
ssl_backend_tls_verify_label = "interlock.ssl_backend_tls_verify"

abbrev pub ssl_cert_label : String
ssl_cert_label = "interlock.ssl_cert"

abbrev pub ssl_cert_key_label : String
ssl_cert_key_label = "interlock.ssl_cert_key"

abbrev pub port_label : String
port_label = "interlock.port"

abbrev pub websocket_endpoint_label : String
websocket_endpoint_label = "interlock.websocket_endpoint"

abbrev pub alias_domain_label : String
alias_domain_label = "interlock.alias_domain"

abbrev pub health_check_label : String
health_check_label = "interlock.health_check"

abbrev pub health_check_interval_label : String
health_check_interval_label = "interlock.health_check_interval"

abbrev pub balance_algorithm_label : String
balance_algorithm_label = "interlock.balance_algorithm"

abbrev pub backend_option_label : String
backend_option_label = "interlock.backend_option"

abbrev pub ip_hash_label : String
ip_hash_label = "interlock.ip_hash"

abbrev pub context_root_label : String
context_root_label = "interlock.context_root"

abbrev pub context_root_rewrite_label : String
context_root_rewrite_label = "interlock.context_root_rewrite"
