-- ===== src/Nginx/Upstreams.antt =====
-- The upstream servers of each host against a description that goes through the containers once for
-- each domain and keeps no tables.
use interlock_old.Prelude.{
  String, ◌≡◌, ◌∙◌, refl, ap, none, some, List, [], ◌∷◌, ◌++◌, append-nil, append_assoc, arith,
  ◌==◌, Option-cases, inl, inr, if◌then◌else◌,
}
use interlock_old.Go.Outcome.{Outcome, ok, err, panic, >>=-eq-ok, ok-injective}
use interlock_old.Go.Text.{slice_to}
use interlock_old.Go.Maps.{index, index-append_at}
use interlock_old.Platform.{Platform, Container, ContainerConfig, ContainerJson}
use interlock_old.Config.{ExtensionConfig}
use interlock_old.Address.{Backend, find_backend}
use interlock_old.Routing.{Route, find_route}
use interlock_old.Nginx.{
  Tables, register, add_aliases, publish, settle, visit_info, visit_answer, visit, visit_all,
}

abbrev addr_of : Outcome Backend → List String
addr_of (ok backend) = backend.addr ∷ []
addr_of (err e) = []
addr_of panic = []

module _ (platform : Platform) (cfg : ExtensionConfig) (d : String) where
  abbrev pub addrs_of_info : ContainerJson → List String
  addrs_of_info info = elim (find_route info.config) [
    | none ↦ []
    | some route ↦
        if route.domain == d
        then addr_of (find_backend platform cfg.backend_override_address info)
        else []
  ]

  abbrev pub addrs_of_answer : Outcome ContainerJson → List String
  addrs_of_answer (ok info) = addrs_of_info info
  addrs_of_answer (err e) = []
  addrs_of_answer panic = []

  -- The addresses of the containers that are served under the domain `d`, in the order in which
  -- the engine lists the containers.
  abbrev pub addrs_served : List Container → List String
  addrs_served [] = []
  addrs_served (c ∷ cs) = addrs_of_answer (platform.container_inspect c.id) ++ addrs_served cs

add_aliases-upstreams :
    (route : Route) (aliases : List String) (t : Tables)
    → (add_aliases route aliases t).upstream_servers ≡ t.upstream_servers
unfolding add_aliases
add_aliases-upstreams route [] t = refl
add_aliases-upstreams route (alias ∷ more) t = add_aliases-upstreams route more _

abbrev upstreams : String → Tables → List String
upstreams d t = index [] d t.upstream_servers

upstreams-publish :
    (d : String) (config : ContainerConfig) (route : Route) (b : Backend) (t : Tables)
    → upstreams d (publish config route b t)
      ≡ upstreams d t ++ (if route.domain == d then b.addr ∷ [] else [])
unfolding publish
upstreams-publish d config route b t =
    rw (index-append_at, add_aliases-upstreams) (ground (arith, append-nil (upstreams d t)))

upstreams-settle :
    (d : String) (config : ContainerConfig) (route : Route) (o : Outcome Backend) (t t' : Tables)
    → settle config route o t ≡ ok t'
    → upstreams d t' ≡ upstreams d t ++ (if route.domain == d then addr_of o else [])
unfolding settle
upstreams-settle d config route (ok b) t t' h =
    rw (← ok-injective h) (upstreams-publish d config route b t)
upstreams-settle d config route (err e) t t' h = ground (arith, append-nil (upstreams d t))
upstreams-settle d config route panic t t' h = cc

module _ (platform : Platform) (cfg : ExtensionConfig) (d : String) where
  upstreams-register :
      (config : ContainerConfig) (route : Route) (t : Tables)
      → upstreams d (register cfg config route t) ≡ upstreams d t
  unfolding register
  upstreams-register config route t = refl

  upstreams-visit_answer :
      (answer : Outcome ContainerJson) (t t' : Tables)
      → visit_answer platform cfg answer t ≡ ok t'
      → upstreams d t' ≡ upstreams d t ++ addrs_of_answer platform cfg d answer
  unfolding visit_answer visit_info
  upstreams-visit_answer (ok info) t t' h = elim (Option-cases (find_route info.config)) [
    | inl gone ↦ ground (arith, append-nil (upstreams d t))
    | inr (route, found) ↦
        let o = find_backend platform cfg.backend_override_address info in
        let t₀ = register cfg info.config route t in
        ground (
          arith,
          upstreams-register info.config route t,
          upstreams-settle d info.config route o t₀ t',
        )
  ]
  upstreams-visit_answer (err e) t t' h = ground (arith, append-nil (upstreams d t))
  upstreams-visit_answer panic t t' h = cc

  pub upstreams-visit_all :
      (cs : List Container) (t t' : Tables)
      → visit_all platform cfg cs t ≡ ok t'
      → upstreams d t' ≡ upstreams d t ++ addrs_served platform cfg d cs
  unfolding visit_all visit
  upstreams-visit_all [] t t' h = ground (arith, append-nil (upstreams d t))
  upstreams-visit_all (c ∷ cs) t t' h =
      let (mid, visited, rest) = >>=-eq-ok (visit platform cfg c t) (visit_all platform cfg cs) h in
      let (_, _, answered) = >>=-eq-ok (slice_to 12 c.id) _ visited in
      upstreams-visit_all cs mid t' rest
      ∙ ap (λ l. l ++ addrs_served platform cfg d cs)
          (upstreams-visit_answer (platform.container_inspect c.id) t mid answered)
      ∙ append_assoc (upstreams d t) _ _
