-- ===== src/Haproxy/Hosts.antt =====
-- The configuration that HAProxy's template is given, against the containers that it comes from.
use interlock_old.Prelude.{
  String, ◌≡◌, ◌≢◌, ◌∙◌, refl, true, inl, inr, some, List, [], ◌∷◌, map, All, All-map, arith,
  Option-cases, ◌==◌, if◌then◌else◌,
}
use interlock_old.Go.Outcome.{ok, ◌>>=◌, >>=-eq-ok, ok-injective}
use interlock_old.Go.Text.{slice_to, replace}
use interlock_old.Go.Maps.{Map, index, has_key, lookup}
use interlock_old.Go.Maps.Keys.{HasDistinctKeys}
use interlock_old.Platform.{Platform, Container, ContainerJson}
use interlock_old.Config.{ExtensionConfig}
use interlock_old.Routing.{ContextRoot}
use interlock_old.Haproxy.{
  Upstream, Host, Config, Tables, no_tables, visit, visit_all, host_of, build_config,
  generate_proxy_config,
}
use interlock_old.Haproxy.Upstreams.{entries_served, upstreams-visit_all}
use interlock_old.Haproxy.Coherence.{IsRooted, no_tables-IsCoherent, visit_all-IsCoherent}

-- The upstreams of the first host of the domain `d`, none without one.
abbrev pub upstreams_under : String → List Host → List Upstream
upstreams_under d [] = []
upstreams_under d (h ∷ hosts) = if h.domain == d then h.upstreams else upstreams_under d hosts

upstreams_under-hosts :
    (t : Tables) (d : String) (m : Map (List Upstream))
    → upstreams_under d (map (host_of t) m) ≡ index [] d m
unfolding host_of index lookup
upstreams_under-hosts t d [] = refl
upstreams_under-hosts t d ((k, v) ∷ m) = ground (arith, upstreams_under-hosts t d m)

-- A host that the template can print: it has an upstream, and its context root is no nil pointer.
pub record IsPrintable (h : Host) : Type 0 where
  pub served : h.upstreams ≢ []
  pub rooted : (root : ContextRoot) × (h.context_root ≡ some root)
  pub named : h.name ≡ replace b'.' "_" h.domain

abbrev pub HasDistinctDomains : List Host → Type 0
HasDistinctDomains [] = Unit
HasDistinctDomains (h ∷ hosts) = All (λ g. g.domain ≢ h.domain) hosts × HasDistinctDomains hosts

has_key-some :
    (k : String) (m : Map ContextRoot)
    → has_key k m ≡ true
    → (root : ContextRoot) × (lookup k m ≡ some root)
unfolding has_key
has_key-some k m h = elim (Option-cases (lookup k m)) [
  | inl gone ↦ absurd (ground arith)
  | inr found ↦ found
]

module _ (t : Tables) where
  hosts-IsPrintable :
      (m : Map (List Upstream))
      → All (λ e. e.1 ≢ []) m
      → All (λ e. IsRooted e.0 t.context_roots) m
      → All IsPrintable (map (host_of t) m)
  unfolding host_of
  hosts-IsPrintable [] full rooted = tt
  hosts-IsPrintable ((k, v) ∷ m) (f, full) (r, rooted) = (
    record { served = f; rooted = has_key-some k t.context_roots r; named = refl },
    hosts-IsPrintable m full rooted,
  )

  hosts-HasDistinctDomains :
      (m : Map (List Upstream)) → HasDistinctKeys m → HasDistinctDomains (map (host_of t) m)
  unfolding host_of
  hosts-HasDistinctDomains [] h = tt
  hosts-HasDistinctDomains ((k, v) ∷ m) (lacks, h) =
      (All-map _ (host_of t) m lacks, hosts-HasDistinctDomains m h)

-- The engine answers the inspection of the container, under the first 12 bytes of its ID.
abbrev pub IsInspected : Platform → Container → Type 0
IsInspected platform c =
    (info : ContainerJson) × ((slice_to 12 c.id >>= platform.container_inspect) ≡ ok info)

module _ (platform : Platform) (cfg : ExtensionConfig) where
  visit_all-IsInspected :
      (cs : List Container) (t t' : Tables)
      → visit_all platform cfg cs t ≡ ok t'
      → All (IsInspected platform) cs
  unfolding visit_all visit
  visit_all-IsInspected [] t t' h = tt
  visit_all-IsInspected (c ∷ cs) t t' h =
      let (mid, visited, rest) = >>=-eq-ok (visit platform cfg c t) (visit_all platform cfg cs) h in
      let (id, short, inspected) = >>=-eq-ok (slice_to 12 c.id) _ visited in
      let (info, answered, done) = >>=-eq-ok (platform.container_inspect id) _ inspected in
      ((info, rw short answered), visit_all-IsInspected cs mid t' rest)

  module _ (cs : List Container) (config : Config) where
    -- If a configuration is generated, then for every domain the upstreams of its host are the
    -- entries of the containers with that domain or with an alias of that name, in the order of
    -- the engine's list; a domain without such a container has no host.
    pub haproxy_serves :
        (d : String)
        → generate_proxy_config platform cfg cs ≡ ok config
        → upstreams_under d config.hosts ≡ entries_served platform cfg d cs
    unfolding generate_proxy_config build_config
    haproxy_serves d h =
        let (t, visited, built) = >>=-eq-ok (visit_all platform cfg cs no_tables) _ h in
        rw (← ok-injective built) (
          upstreams_under-hosts t d t.proxy_upstreams
          ∙ upstreams-visit_all platform cfg d cs no_tables t visited)

    -- If a configuration is generated, then every container of the engine's list was inspected,
    -- every host can be printed, and no two hosts share a domain.
    pub haproxy-IsPrintable :
        generate_proxy_config platform cfg cs ≡ ok config
        → All (IsInspected platform) cs
          × All IsPrintable config.hosts
          × HasDistinctDomains config.hosts
    unfolding generate_proxy_config build_config
    haproxy-IsPrintable h =
        let (t, visited, built) = >>=-eq-ok (visit_all platform cfg cs no_tables) _ h in
        let c = visit_all-IsCoherent platform cfg cs no_tables t no_tables-IsCoherent visited in
        (
          visit_all-IsInspected cs no_tables t visited,
          rw (← ok-injective built) (hosts-IsPrintable t t.proxy_upstreams c.served c.rooted),
          rw (← ok-injective built) (hosts-HasDistinctDomains t t.proxy_upstreams c.distinct),
        )
