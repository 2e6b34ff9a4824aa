-- ===== src/Nginx/Hosts.antt =====
-- The configuration that nginx's template is given, against the containers that it comes from.
use interlock_old.Prelude.{
  String, ◌≡◌, ◌≢◌, ◌∙◌, refl, ap, true, inl, inr, some, List, [], ◌∷◌, map, All, All-map, arith,
  Option-cases, ◌==◌, if◌then◌else◌,
}
use interlock_old.Go.Outcome.{ok, >>=-eq-ok, ok-injective}
use interlock_old.Go.Maps.{Map, index, has_key, lookup}
use interlock_old.Go.Maps.Keys.{HasDistinctKeys, All-index}
use interlock_old.Platform.{Platform, Container}
use interlock_old.Config.{ExtensionConfig}
use interlock_old.Routing.{ContextRoot}
use interlock_old.Nginx.{
  Server, Host, Config, Tables, no_tables, visit_all, host_of, build_config, generate_proxy_config,
}
use interlock_old.Nginx.Upstreams.{addrs_served, upstreams-visit_all}
use interlock_old.Nginx.Coherence.{BeginsWith, IsReady, no_tables-IsCoherent, visit_all-IsCoherent}

-- The addresses of the upstream servers of the first host with the name `d`, none without one.
abbrev pub servers_under : String → List Host → List String
servers_under d [] = []
servers_under d (h ∷ hosts) =
    if h.upstream.name == d then map (λ s. s.addr) h.upstream.servers else servers_under d hosts

map-addr : (v : List String) → map (λ (s : Server). s.addr) (map (λ s. record { addr = s }) v) ≡ v
map-addr [] = refl
map-addr (x ∷ v) = ap (λ l. x ∷ l) (map-addr v)

servers_under-hosts :
    (cfg : ExtensionConfig) (t : Tables) (d : String) (m : Map (List String))
    → servers_under d (map (host_of cfg t) m) ≡ index [] d m
unfolding host_of index lookup
servers_under-hosts cfg t d [] = refl
servers_under-hosts cfg t d ((k, v) ∷ m) = ground (arith, map-addr v, servers_under-hosts cfg t d m)

module _ (platform : Platform) (cfg : ExtensionConfig) (cs : List Container) (config : Config) where
  -- If a configuration is generated, then for every domain the upstream servers of its host are the
  -- addresses of the containers served under that domain, in the order of the engine's list; a
  -- domain without such a container has no host.
  pub generate-serves :
      (d : String)
      → generate_proxy_config platform cfg cs ≡ ok config
      → servers_under d config.hosts ≡ addrs_served platform cfg d cs
  unfolding generate_proxy_config build_config
  generate-serves d h =
      let (t, visited, built) = >>=-eq-ok (visit_all platform cfg cs no_tables) _ h in
      rw (← ok-injective built) (
        servers_under-hosts cfg t d t.upstream_servers
        ∙ upstreams-visit_all platform cfg d cs no_tables t visited)

-- A host that the template can print: it has a server, its context root is no nil pointer, its
-- first server name is the name of its upstream, and its ports are those of the configuration.
pub record IsPrintable (cfg : ExtensionConfig) (h : Host) : Type 0 where
  pub served : h.upstream.servers ≢ []
  pub rooted : (root : ContextRoot) × (h.context_root ≡ some root)
  pub named : BeginsWith h.upstream.name h.server_names
  pub port : h.port ≡ cfg.port
  pub ssl_port : h.ssl_port ≡ cfg.ssl_port

abbrev pub HasDistinctUpstreams : List Host → Type 0
HasDistinctUpstreams [] = Unit
HasDistinctUpstreams (h ∷ hosts) =
    All (λ g. g.upstream.name ≢ h.upstream.name) hosts × HasDistinctUpstreams hosts

has_key-some :
    (k : String) (m : Map ContextRoot)
    → has_key k m ≡ true
    → (root : ContextRoot) × (lookup k m ≡ some root)
unfolding has_key
has_key-some k m h = elim (Option-cases (lookup k m)) [
  | inl gone ↦ absurd (ground arith)
  | inr found ↦ found
]

module _ (cfg : ExtensionConfig) (t : Tables) where
  host_of-IsPrintable :
      (k : String) (v : List String)
      → All (λ e. BeginsWith e.0 e.1) t.server_names
      → v ≢ []
      → IsReady k t
      → IsPrintable cfg (host_of cfg t (k, v))
  unfolding host_of
  host_of-IsPrintable k [] names full ready = absurd (full refl)
  host_of-IsPrintable k (a ∷ v) names full ready = record {
    served = λ e. cc;
    rooted = has_key-some k t.context_roots ready.0;
    named = All-index BeginsWith [] k t.server_names ready.1 names;
    port = refl;
    ssl_port = refl;
  }

  hosts-IsPrintable :
      (m : Map (List String))
      → All (λ e. BeginsWith e.0 e.1) t.server_names
      → All (λ e. e.1 ≢ []) m
      → All (λ e. IsReady e.0 t) m
      → All (IsPrintable cfg) (map (host_of cfg t) m)
  hosts-IsPrintable [] names full ready = tt
  hosts-IsPrintable ((k, v) ∷ m) names (f, full) (r, ready) =
      (host_of-IsPrintable k v names f r, hosts-IsPrintable m names full ready)

  hosts-HasDistinctUpstreams :
      (m : Map (List String)) → HasDistinctKeys m → HasDistinctUpstreams (map (host_of cfg t) m)
  unfolding host_of
  hosts-HasDistinctUpstreams [] h = tt
  hosts-HasDistinctUpstreams ((k, v) ∷ m) (lacks, h) =
      (All-map _ (host_of cfg t) m lacks, hosts-HasDistinctUpstreams m h)

-- Every host of a generated configuration can be printed, and no two hosts share an upstream name.
pub generate-IsPrintable :
    (platform : Platform) (cfg : ExtensionConfig) (cs : List Container) (config : Config)
    → generate_proxy_config platform cfg cs ≡ ok config
    → All (IsPrintable cfg) config.hosts × HasDistinctUpstreams config.hosts
unfolding generate_proxy_config build_config
generate-IsPrintable platform cfg cs config h =
    let (t, visited, built) = >>=-eq-ok (visit_all platform cfg cs no_tables) _ h in
    let c = visit_all-IsCoherent platform cfg cs no_tables t no_tables-IsCoherent visited in
    rw (← ok-injective built) (
      hosts-IsPrintable cfg t t.upstream_servers c.names c.served c.ready,
      hosts-HasDistinctUpstreams cfg t t.upstream_servers c.distinct,
    )
