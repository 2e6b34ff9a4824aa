-- ===== src/Labels.antt =====
-- The package ext/lb/utils, less network.go: what the labels of a container say.
use interlock_old.Prelude.{String, Bool, none, some, List, [], ◌∷◌, ◌==◌, if◌then◌else◌}
use interlock_old.Prelude.Int.{ℤ, pos, is_zero}
use interlock_old.Go.Outcome.{Outcome, ok, ◌>>=◌}
use interlock_old.Go.Text.{contains, atoi}
use interlock_old.Go.Maps.{Map, index, has_key, lookup}
use interlock_old.Platform.{ContainerConfig}
use interlock_old.Ext

-- `for l, v := range labels { if strings.Index(l, name) > -1 { … = append(…, v) } }`
unfoldable pub labelled : String → Map String → List String
unfolding contains
labelled name [] = []
labelled name ((l, v) ∷ labels) =
    let rest = labelled name labels in if contains l name then v ∷ rest else rest

-- alias_domains.go
unfoldable pub alias_domains : ContainerConfig → List String
unfolding labelled
alias_domains config = labelled Ext.alias_domain_label config.labels

-- backend_options.go
unfoldable pub backend_options : ContainerConfig → List String
unfolding labelled
backend_options config = labelled Ext.backend_option_label config.labels

-- websocket.go
unfoldable pub websocket_endpoints : ContainerConfig → List String
unfolding labelled
websocket_endpoints config = labelled Ext.websocket_endpoint_label config.labels

-- balance.go
abbrev pub default_balance_algorithm : String
default_balance_algorithm = "roundrobin"

unfoldable pub balance_algorithm : ContainerConfig → String
unfolding index
balance_algorithm config = index default_balance_algorithm Ext.balance_algorithm_label config.labels

-- context_root.go
unfoldable pub context_root : ContainerConfig → String
unfolding index
context_root config = index "" Ext.context_root_label config.labels

unfoldable pub context_root_rewrite : ContainerConfig → Bool
unfolding has_key
context_root_rewrite config = has_key Ext.context_root_rewrite_label config.labels

-- domain.go
unfoldable pub domain : ContainerConfig → String
unfolding index
domain config = index config.domainname Ext.domain_label config.labels

-- hostname.go
unfoldable pub hostname : ContainerConfig → String
unfolding index
hostname config = index config.hostname Ext.hostname_label config.labels

-- health_check.go
abbrev pub default_health_check_interval : ℤ
default_health_check_interval = pos 5000

unfoldable pub health_check : ContainerConfig → String
unfolding index
health_check config = index "" Ext.health_check_label config.labels

-- The value of the label, read where it is not empty.
unfoldable pub interval_of : String → Outcome ℤ
interval_of v = do i ← atoi v; ok (if is_zero i then default_health_check_interval else i)

unfoldable pub health_check_interval : ContainerConfig → Outcome ℤ
unfolding lookup interval_of
health_check_interval config = elim (lookup Ext.health_check_interval_label config.labels) [
  | none ↦ ok default_health_check_interval
  | some v ↦ if v == "" then ok default_health_check_interval else interval_of v
]

-- ip_hash.go
unfoldable pub ip_hash : ContainerConfig → Bool
unfolding has_key
ip_hash config = has_key Ext.ip_hash_label config.labels

-- ssl.go
abbrev pub default_ssl_backend_tls_verify : String
default_ssl_backend_tls_verify = "none"

unfoldable pub ssl_enabled : ContainerConfig → Bool
unfolding has_key
ssl_enabled config = has_key Ext.ssl_label config.labels

unfoldable pub ssl_only : ContainerConfig → Bool
unfolding has_key
ssl_only config = has_key Ext.ssl_only_label config.labels

unfoldable pub ssl_backend : ContainerConfig → Bool
unfolding has_key
ssl_backend config = has_key Ext.ssl_backend_label config.labels

unfoldable pub ssl_cert_name : ContainerConfig → String
unfolding index
ssl_cert_name config = index "" Ext.ssl_cert_label config.labels

unfoldable pub ssl_cert_key : ContainerConfig → String
unfolding index
ssl_cert_key config = index "" Ext.ssl_cert_key_label config.labels

unfoldable pub ssl_backend_tls_verify : ContainerConfig → String
unfolding index
ssl_backend_tls_verify config =
    index default_ssl_backend_tls_verify Ext.ssl_backend_tls_verify_label config.labels
