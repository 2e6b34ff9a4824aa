-- ===== src/Haproxy/Upstreams.antt =====
-- The upstreams of each host against a description that goes through the containers once for each
-- domain and keeps no tables: a container stands under its own domain and under each alias domain.
use interlock_old.Prelude.{
  String, ◌≡◌, ◌∙◌, ap, inl, inr, Option, none, some, List, [], ◌∷◌, ◌++◌, append-nil, append_assoc,
  arith, ◌==◌, Option-cases, if◌then◌else◌,
}
use interlock_old.Prelude.Int.{ℤ}
use interlock_old.Go.Outcome.{Outcome, ok, err, panic, ◌>>=◌, >>=-eq-ok, ok-injective}
use interlock_old.Go.Text.{slice_to, slice_from}
use interlock_old.Go.Maps.{index, append_at, insert, index-append_at}
use interlock_old.Platform.{Platform, Container, ContainerConfig, ContainerJson}
use interlock_old.Config.{ExtensionConfig}
use interlock_old.Labels
use interlock_old.Address.{Backend, find_backend}
use interlock_old.Routing.{Route, find_route}
use interlock_old.Haproxy.{
  Upstream, Tables, register_root, register, join_network, add_aliases, publish, settle,
  visit_route, visit_info, visit, visit_all,
}

-- One entry for each alias that is the domain `d`.
abbrev pub under_aliases : String → Upstream → List String → List Upstream
under_aliases d up [] = []
under_aliases d up (alias ∷ more) =
    let rest = under_aliases d up more in if alias == d then up ∷ rest else rest

abbrev pub entries_of : String → ContainerConfig → Route → Upstream → List Upstream
entries_of d config route up =
    under_aliases d up (Labels.alias_domains config) ++ (if route.domain == d then up ∷ [] else [])

abbrev pub entries_settled :
    String → ContainerJson → Route → ℤ → Outcome Backend → Outcome String → List Upstream
entries_settled d info route interval (ok b) (ok name) =
    entries_of d info.config route
      (record { container = name; addr = b.addr; check_interval = interval })
entries_settled d info route interval _ _ = []

module _ (platform : Platform) (cfg : ExtensionConfig) (d : String) where
  abbrev pub entries_of_route : ContainerJson → Route → Outcome ℤ → List Upstream
  entries_of_route info route (ok interval) =
      entries_settled d info route interval
        (find_backend platform cfg.backend_override_address info) (slice_from 1 info.name)
  entries_of_route info route (err e) = []
  entries_of_route info route panic = []

  abbrev pub entries_of_info : ContainerJson → List Upstream
  entries_of_info info = elim (find_route info.config) [
    | none ↦ []
    | some route ↦ entries_of_route info route (Labels.health_check_interval info.config)
  ]

  abbrev pub entries_of_answer : Outcome ContainerJson → List Upstream
  entries_of_answer (ok info) = entries_of_info info
  entries_of_answer (err e) = []
  entries_of_answer panic = []

  -- The entries of the domain `d`, in the order in which the engine lists the containers.
  abbrev pub entries_served : List Container → List Upstream
  entries_served [] = []
  entries_served (c ∷ cs) =
      entries_of_answer (slice_to 12 c.id >>= platform.container_inspect) ++ entries_served cs

abbrev upstreams : String → Tables → List Upstream
upstreams d t = index [] d t.proxy_upstreams

upstreams-add_aliases :
    (d : String) (route : Route) (up : Upstream) (aliases : List String) (t : Tables)
    → upstreams d (add_aliases route up aliases t) ≡ upstreams d t ++ under_aliases d up aliases
unfolding add_aliases
upstreams-add_aliases d route up [] t = ground (arith, append-nil (upstreams d t))
upstreams-add_aliases d route up (alias ∷ more) t =
    let t' : Tables = record t {
      proxy_upstreams = append_at alias up t.proxy_upstreams;
      context_roots = insert alias route.context_root t.context_roots;
    } in
    ground (
      arith,
      upstreams-add_aliases d route up more t',
      index-append_at alias d up t.proxy_upstreams,
      append_assoc (upstreams d t) (up ∷ []) (under_aliases d up more),
    )

upstreams-publish :
    (d : String) (config : ContainerConfig) (route : Route) (network : Option String)
    (up : Upstream) (t : Tables)
    → upstreams d (publish config route network up t)
      ≡ upstreams d t ++ entries_of d config route up
unfolding publish
upstreams-publish d config route network up t =
    let joined : Tables = record t { networks = join_network network t.networks } in
    let aliases = Labels.alias_domains config in
    let named : Tables = add_aliases route up aliases joined in
    ground (
      arith,
      index-append_at route.domain d up named.proxy_upstreams,
      upstreams-add_aliases d route up aliases joined,
      append-nil (under_aliases d up aliases),
      append_assoc (upstreams d t) (under_aliases d up aliases) (up ∷ []),
    )

upstreams-settle :
    (d : String) (info : ContainerJson) (route : Route) (interval : ℤ) (o : Outcome Backend)
    (t t' : Tables)
    → settle info route interval o t ≡ ok t'
    → upstreams d t'
      ≡ upstreams d t ++ entries_settled d info route interval o (slice_from 1 info.name)
unfolding settle
upstreams-settle d info route interval (ok b) t t' h =
    let (name, named, e) = >>=-eq-ok (slice_from 1 info.name) _ h in
    rw (named, ← ok-injective e)
      (upstreams-publish d info.config route b.network
        (record { container = name; addr = b.addr; check_interval = interval }) t)
upstreams-settle d info route interval (err e) t t' h = ground (arith, append-nil (upstreams d t))
upstreams-settle d info route interval panic t t' h = cc

module _ (platform : Platform) (cfg : ExtensionConfig) (d : String) where
  upstreams-visit_route :
      (info : ContainerJson) (route : Route) (interval : Outcome ℤ) (t t' : Tables)
      → visit_route platform cfg info route interval t ≡ ok t'
      → upstreams d t' ≡ upstreams d t ++ entries_of_route platform cfg d info route interval
  unfolding visit_route register
  upstreams-visit_route info route (ok interval) t t' h =
      upstreams-settle d info route interval
        (find_backend platform cfg.backend_override_address info) (register info.config route t) t'
        h
  upstreams-visit_route info route (err e) t t' h = ground (arith, append-nil (upstreams d t))
  upstreams-visit_route info route panic t t' h = cc

  upstreams-visit_info :
      (info : ContainerJson) (t t' : Tables)
      → visit_info platform cfg info t ≡ ok t'
      → upstreams d t' ≡ upstreams d t ++ entries_of_info platform cfg d info
  unfolding visit_info register_root
  upstreams-visit_info info t t' h = elim (Option-cases (find_route info.config)) [
    | inl gone ↦ ground (arith, append-nil (upstreams d t))
    | inr (route, found) ↦ ground (
      arith,
      upstreams-visit_route info route (Labels.health_check_interval info.config)
          (register_root info.config route t) t',
    )
  ]

  pub upstreams-visit_all :
      (cs : List Container) (t t' : Tables)
      → visit_all platform cfg cs t ≡ ok t'
      → upstreams d t' ≡ upstreams d t ++ entries_served platform cfg d cs
  unfolding visit_all visit
  upstreams-visit_all [] t t' h = ground (arith, append-nil (upstreams d t))
  upstreams-visit_all (c ∷ cs) t t' h =
      let (mid, visited, rest) = >>=-eq-ok (visit platform cfg c t) (visit_all platform cfg cs) h in
      let (id, short, inspected) = >>=-eq-ok (slice_to 12 c.id) _ visited in
      let (info, answered, done) = >>=-eq-ok (platform.container_inspect id) _ inspected in
      let e : (slice_to 12 c.id >>= platform.container_inspect) ≡ ok info = rw short answered in
      rw e (
        upstreams-visit_all cs mid t' rest
        ∙ ap (λ l. l ++ entries_served platform cfg d cs) (upstreams-visit_info info t mid done)
        ∙ append_assoc (upstreams d t) _ _)
