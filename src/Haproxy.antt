-- ===== src/Haproxy.antt =====
-- ext/lb/haproxy: the data of the HAProxy configuration (config.go) and its generation from the
-- containers (generate.go).
pub mod Upstreams
pub mod Hosts
pub mod Registered
pub mod Settings
pub mod Coherence
pub mod Template
pub mod Declared
use interlock_old.Prelude.{
  String, Bool, true, false, Option, none, some, List, [], ◌∷◌, map, ◌==◌, if◌then◌else◌,
}
use interlock_old.Prelude.Int.{ℤ}
use interlock_old.Go.Outcome.{Outcome, ok, err, panic, ◌>>=◌}
use interlock_old.Go.Text.{slice_to, slice_from, replace}
use interlock_old.Go.Maps.{Map, lookup, index, has_key, insert, append_at}
use interlock_old.Platform.{Platform, Container, ContainerConfig, ContainerJson}
use interlock_old.Config.{ExtensionConfig}
use interlock_old.Labels
use interlock_old.Address.{Backend, find_backend}
use interlock_old.Routing.{ContextRoot, Route, find_route}

pub record Upstream : Type 0 where
  pub container : String
  pub addr : String
  pub check_interval : ℤ

pub record Host : Type 0 where
  pub name : String
  pub context_root : Option ContextRoot  -- a pointer, nil where a map has no entry
  pub context_root_rewrite : Bool
  pub domain : String
  pub check : String
  pub backend_options : List String
  pub upstreams : List Upstream
  pub ssl_only : Bool
  pub ssl_backend : Bool
  pub ssl_backend_tls_verify : String
  pub balance_algorithm : String

pub record Config : Type 0 where
  pub hosts : List Host
  pub config : ExtensionConfig
  pub networks : Map String

-- The maps that GenerateProxyConfig fills, by the domain of a host.
pub record Tables : Type 0 where
  pub proxy_upstreams : Map (List Upstream)
  pub checks : Map String
  pub balance_algorithms : Map String
  pub context_roots : Map ContextRoot
  pub context_root_rewrites : Map Bool
  pub backend_options : Map (List String)
  pub ssl_only : Map Bool
  pub ssl_backend : Map Bool
  pub ssl_backend_tls_verify : Map String
  pub networks : Map String

abbrev pub no_tables : Tables
no_tables = record {
  proxy_upstreams = [];
  checks = [];
  balance_algorithms = [];
  context_roots = [];
  context_root_rewrites = [];
  backend_options = [];
  ssl_only = [];
  ssl_backend = [];
  ssl_backend_tls_verify = [];
  networks = [];
}

-- What is stored before the check interval is read.
unfoldable pub register_root : ContainerConfig → Route → Tables → Tables
register_root config route t = record t {
  context_roots = insert route.domain route.context_root t.context_roots;
  context_root_rewrites =
      insert route.domain (Labels.context_root_rewrite config) t.context_root_rewrites;
}

-- A host keeps its first check; a conflicting one is logged.
unfoldable pub insert_check : String → String → Map String → Map String
unfolding has_key
insert_check k check m = if check == "" then m else if has_key k m then m else insert k check m

unfoldable pub insert_options : String → List String → Map (List String) → Map (List String)
insert_options k [] m = m
insert_options k (option ∷ options) m = insert k (option ∷ options) m

-- What is stored when the check interval is read, before an address is looked for.
unfoldable pub register : ContainerConfig → Route → Tables → Tables
unfolding insert_check insert_options
register config route t =
    let k = route.domain in
    record t {
      checks = insert_check k (Labels.health_check config) t.checks;
      balance_algorithms = insert k (Labels.balance_algorithm config) t.balance_algorithms;
      backend_options = insert_options k (Labels.backend_options config) t.backend_options;
      ssl_only = insert k (Labels.ssl_only config) t.ssl_only;
      ssl_backend = insert k (Labels.ssl_backend config) t.ssl_backend;
      ssl_backend_tls_verify =
          insert k (Labels.ssl_backend_tls_verify config) t.ssl_backend_tls_verify;
    }

-- `networks[n] = ""` on the way that goes through an overlay network
unfoldable pub join_network : Option String → Map String → Map String
join_network none networks = networks
join_network (some n) networks = insert n "" networks

-- the loop over the alias domains
unfoldable pub add_aliases : Route → Upstream → List String → Tables → Tables
add_aliases route up [] t = t
add_aliases route up (alias ∷ more) t = add_aliases route up more (record t {
  proxy_upstreams = append_at alias up t.proxy_upstreams;
  context_roots = insert alias route.context_root t.context_roots;
})

-- What follows when the address is found.
unfoldable pub publish : ContainerConfig → Route → Option String → Upstream → Tables → Tables
unfolding join_network add_aliases
publish config route network up t =
    let joined = record t { networks = join_network network t.networks } in
    let named = add_aliases route up (Labels.alias_domains config) joined in
    record named { proxy_upstreams = append_at route.domain up named.proxy_upstreams }

-- The end of a round: an error is logged, and the loop goes on with the tables so far.
unfoldable pub settle : ContainerJson → Route → ℤ → Outcome Backend → Tables → Outcome Tables
unfolding publish
settle info route interval (ok backend) t = do
  name ← slice_from 1 info.name
  ok (
      publish info.config route backend.network
        (record { container = name; addr = backend.addr; check_interval = interval }) t)
settle info route interval (err e) t = ok t
settle info route interval panic t = panic

module _ (platform : Platform) (cfg : ExtensionConfig) where
  -- A round with a route, from the reading of the check interval on.
  unfoldable pub visit_route : ContainerJson → Route → Outcome ℤ → Tables → Outcome Tables
  unfolding register settle
  visit_route info route (ok interval) t =
      settle info route interval (find_backend platform cfg.backend_override_address info)
        (register info.config route t)
  visit_route info route (err e) t = ok t
  visit_route info route panic t = panic

  unfoldable pub visit_info : ContainerJson → Tables → Outcome Tables
  unfolding register_root visit_route
  visit_info info t = elim (find_route info.config) [
    | none ↦ ok t
    | some route ↦
        visit_route info route (Labels.health_check_interval info.config)
          (register_root info.config route t)
  ]

  -- A round of the loop over the containers: a failed inspection ends the call.
  unfoldable pub visit : Container → Tables → Outcome Tables
  unfolding visit_info
  visit c t = do id ← slice_to 12 c.id; info ← platform.container_inspect id; visit_info info t

  unfoldable pub visit_all : List Container → Tables → Outcome Tables
  unfolding visit
  visit_all [] t = ok t
  visit_all (c ∷ cs) t = visit c t >>= visit_all cs

-- A round of the loop over `proxyUpstreams`.
unfoldable pub host_of : Tables → String × List Upstream → Host
unfolding index replace
host_of t (k, v) = record {
  name = replace b'.' "_" k;
  context_root = lookup k t.context_roots;
  context_root_rewrite = index false k t.context_root_rewrites;
  domain = k;
  check = index "" k t.checks;
  backend_options = index [] k t.backend_options;
  upstreams = v;
  ssl_only = index false k t.ssl_only;
  ssl_backend = index false k t.ssl_backend;
  ssl_backend_tls_verify = index "" k t.ssl_backend_tls_verify;
  balance_algorithm = index "" k t.balance_algorithms;
}

unfoldable pub build_config : ExtensionConfig → Tables → Config
unfolding host_of
build_config cfg t = record {
  hosts = map (host_of t) t.proxy_upstreams;
  config = cfg;
  networks = t.networks;
}

unfoldable pub generate_proxy_config : Platform → ExtensionConfig → List Container → Outcome Config
unfolding visit_all build_config
generate_proxy_config platform cfg containers = do
  t ← visit_all platform cfg containers no_tables
  ok (build_config cfg t)
