-- ===== src/Nginx.antt =====
-- ext/lb/nginx: the data of the nginx configuration (config.go) and its generation from the
-- containers (generate.go).
pub mod Upstreams
pub mod Totality
pub mod Hosts
pub mod Coherence
pub mod Blocks
pub mod Template
pub mod Proxied
pub mod Declared
pub mod Printed
pub mod Order
use interlock_old.Prelude.{
  String, Bool, false, Option, none, some, List, [], ◌∷◌, map, ◌==◌, if◌then◌else◌,
}
use interlock_old.Prelude.Int.{ℤ}
use interlock_old.Go.Outcome.{Outcome, ok, err, panic, ◌>>=◌}
use interlock_old.Go.Text.{slice_to}
use interlock_old.Go.FilePath.{join}
use interlock_old.Go.Maps.{Map, lookup, index, has_key, insert, append_at}
use interlock_old.Platform.{Platform, Container, ContainerConfig, ContainerJson}
use interlock_old.Config.{ExtensionConfig}
use interlock_old.Labels
use interlock_old.Address.{Backend, find_backend}
use interlock_old.Routing.{ContextRoot, Route, find_route}

pub record Server : Type 0 where
  pub addr : String

pub record Upstream : Type 0 where
  pub name : String
  pub servers : List Server

pub record Host : Type 0 where
  pub server_names : List String
  pub port : ℤ
  pub context_root : Option ContextRoot  -- a pointer, nil where a map has no entry
  pub context_root_rewrite : Bool
  pub ssl_port : ℤ
  pub ssl : Bool
  pub ssl_cert : String
  pub ssl_cert_key : String
  pub ssl_only : Bool
  pub ssl_backend : Bool
  pub upstream : Upstream
  pub websocket_endpoints : List String
  pub ip_hash : Bool

pub record Config : Type 0 where
  pub hosts : List Host
  pub config : ExtensionConfig
  pub networks : Map String

-- The maps that GenerateProxyConfig fills, by the domain of a host.
pub record Tables : Type 0 where
  pub upstream_servers : Map (List String)
  pub server_names : Map (List String)
  pub context_roots : Map ContextRoot
  pub context_root_rewrites : Map Bool
  pub ssl : Map Bool
  pub ssl_cert : Map String
  pub ssl_cert_key : Map String
  pub ssl_only : Map Bool
  pub ssl_backend : Map Bool
  pub websocket_endpoints : Map (List String)
  pub ip_hash : Map Bool
  pub networks : Map String

abbrev pub no_tables : Tables
no_tables = record {
  upstream_servers = [];
  server_names = [];
  context_roots = [];
  context_root_rewrites = [];
  ssl = [];
  ssl_cert = [];
  ssl_cert_key = [];
  ssl_only = [];
  ssl_backend = [];
  websocket_endpoints = [];
  ip_hash = [];
  networks = [];
}

-- `if name != "" { m[domain] = filepath.Join(base, name) }`
unfoldable pub insert_path : String → String → String → Map String → Map String
insert_path domain base name m = if name == "" then m else insert domain (join base name) m

-- What a container says of its host, before an address is looked for.
unfoldable pub register : ExtensionConfig → ContainerConfig → Route → Tables → Tables
unfolding insert_path
register cfg config route t =
    let k = route.domain in
    record t {
      context_roots = insert k route.context_root t.context_roots;
      context_root_rewrites = insert k (Labels.context_root_rewrite config) t.context_root_rewrites;
      server_names =
          if has_key k t.server_names then t.server_names else insert k (k ∷ []) t.server_names;
      ssl = insert k (Labels.ssl_enabled config) t.ssl;
      ssl_only = insert k (Labels.ssl_only config) t.ssl_only;
      ip_hash = insert k (Labels.ip_hash config) t.ip_hash;
      ssl_backend = insert k (Labels.ssl_backend config) t.ssl_backend;
      ssl_cert = insert_path k cfg.ssl_cert_path (Labels.ssl_cert_name config) t.ssl_cert;
      ssl_cert_key = insert_path k cfg.ssl_cert_path (Labels.ssl_cert_key config) t.ssl_cert_key;
    }

-- `networks[n] = ""` on the way that goes through an overlay network
unfoldable pub join_network : Option String → Map String → Map String
join_network none networks = networks
join_network (some n) networks = insert n "" networks

-- the loop over the websocket endpoints
unfoldable pub add_endpoints : String → List String → Map (List String) → Map (List String)
add_endpoints k [] m = m
add_endpoints k (ws ∷ more) m = add_endpoints k more (append_at k ws m)

-- the loop over the alias domains
unfoldable pub add_aliases : Route → List String → Tables → Tables
add_aliases route [] t = t
add_aliases route (alias ∷ more) t = add_aliases route more (record t {
  server_names = append_at route.domain alias t.server_names;
  context_roots = insert alias route.context_root t.context_roots;
})

-- What follows when the address is found.
unfoldable pub publish : ContainerConfig → Route → Backend → Tables → Tables
unfolding join_network add_endpoints add_aliases
publish config route backend t =
    let k = route.domain in
    let joined = record t {
      networks = join_network backend.network t.networks;
      websocket_endpoints =
          add_endpoints k (Labels.websocket_endpoints config) t.websocket_endpoints;
    } in
    let named = add_aliases route (Labels.alias_domains config) joined in
    record named { upstream_servers = append_at k backend.addr named.upstream_servers }

-- The end of a round: an error is logged, and the loop goes on with the tables of `register`.
unfoldable pub settle : ContainerConfig → Route → Outcome Backend → Tables → Outcome Tables
unfolding publish
settle config route (ok backend) t = ok (publish config route backend t)
settle config route (err e) t = ok t
settle config route panic t = panic

module _ (platform : Platform) (cfg : ExtensionConfig) where
  -- A round of the loop, after the inspection of the container.
  unfoldable pub visit_info : ContainerJson → Tables → Outcome Tables
  unfolding register settle
  visit_info info t = elim (find_route info.config) [
    | none ↦ ok t
    | some route ↦
        settle info.config route (find_backend platform cfg.backend_override_address info)
          (register cfg info.config route t)
  ]

  -- The answer of ContainerInspect: an error is logged and the container is passed over.
  unfoldable pub visit_answer : Outcome ContainerJson → Tables → Outcome Tables
  unfolding visit_info
  visit_answer (ok info) t = visit_info info t
  visit_answer (err e) t = ok t
  visit_answer panic t = panic

  -- A round of the loop over the containers.
  unfoldable pub visit : Container → Tables → Outcome Tables
  unfolding visit_answer
  visit c t = do _ ← slice_to 12 c.id; visit_answer (platform.container_inspect c.id) t

  unfoldable pub visit_all : List Container → Tables → Outcome Tables
  unfolding visit
  visit_all [] t = ok t
  visit_all (c ∷ cs) t = visit c t >>= visit_all cs

-- A round of the loop over `upstreamServers`.
unfoldable pub host_of : ExtensionConfig → Tables → String × List String → Host
unfolding index
host_of cfg t (k, v) = record {
  server_names = index [] k t.server_names;
  port = cfg.port;
  context_root = lookup k t.context_roots;
  context_root_rewrite = index false k t.context_root_rewrites;
  ssl_port = cfg.ssl_port;
  ssl = index false k t.ssl;
  ssl_cert = index "" k t.ssl_cert;
  ssl_cert_key = index "" k t.ssl_cert_key;
  ssl_only = index false k t.ssl_only;
  ssl_backend = index false k t.ssl_backend;
  upstream = record { name = k; servers = map (λ s. record { addr = s }) v };
  websocket_endpoints = index [] k t.websocket_endpoints;
  ip_hash = index false k t.ip_hash;
}

unfoldable pub build_config : ExtensionConfig → Tables → Config
unfolding host_of
build_config cfg t = record {
  hosts = map (host_of cfg t) t.upstream_servers;
  config = cfg;
  networks = t.networks;
}

unfoldable pub generate_proxy_config : Platform → ExtensionConfig → List Container → Outcome Config
unfolding visit_all build_config
generate_proxy_config platform cfg containers = do
  t ← visit_all platform cfg containers no_tables
  ok (build_config cfg t)
