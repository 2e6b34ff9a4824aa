-- ===== src/Haproxy/Coherence.antt =====
-- What holds of the tables between two rounds: no key stands twice, and every host has upstreams and a
-- context root.
use interlock_old.Prelude.{
  String, ◌≡◌, ◌≢◌, refl, true, inl, inr, Option, List, [], ◌∷◌, ◌++◌, All, All-imp, arith,
  Option-cases,
}
use interlock_old.Prelude.Int.{ℤ}
use interlock_old.Go.Outcome.{Outcome, ok, err, panic, >>=-eq-ok, ok-injective}
use interlock_old.Go.Text.{slice_to, slice_from}
use interlock_old.Go.Maps.{Map, index, has_key, insert, append_at}
use interlock_old.Go.Maps.Keys.{
  HasDistinctKeys, insert-HasDistinctKeys, All-insert, has_key-insert_self, has_key-insert_of,
}
use interlock_old.Platform.{Platform, Container, ContainerConfig, ContainerJson}
use interlock_old.Config.{ExtensionConfig}
use interlock_old.Labels
use interlock_old.Address.{Backend, find_backend}
use interlock_old.Routing.{ContextRoot, Route, find_route}
use interlock_old.Haproxy.{
  Upstream, Tables, no_tables, register_root, register, join_network, add_aliases, publish, settle,
  visit_route, visit_info, visit, visit_all,
}

abbrev pub IsRooted : String → Map ContextRoot → Type 0
IsRooted k m = has_key k m ≡ true

pub record IsCoherent (t : Tables) : Type 0 where
  pub distinct : HasDistinctKeys t.proxy_upstreams
  pub served : All (λ e. e.1 ≢ []) t.proxy_upstreams
  pub rooted : All (λ e. IsRooted e.0 t.context_roots) t.proxy_upstreams

pub no_tables-IsCoherent : IsCoherent no_tables
no_tables-IsCoherent = record { distinct = tt; served = tt; rooted = tt }

append-ne-nil : (l : List Upstream) (v : Upstream) → l ++ v ∷ [] ≢ []
append-ne-nil [] v = cc
append-ne-nil (x ∷ l) v = cc

-- One more upstream for a host whose context root is there.
append_at-IsCoherent :
    (k : String) (up : Upstream) (t : Tables)
    → IsRooted k t.context_roots
    → IsCoherent t
    → IsCoherent (record t { proxy_upstreams = append_at k up t.proxy_upstreams })
unfolding append_at
append_at-IsCoherent k up t r c =
    let l = index [] k t.proxy_upstreams ++ up ∷ [] in
    record {
      distinct = insert-HasDistinctKeys k l t.proxy_upstreams c.distinct;
      served =
          All-insert (λ j v. v ≢ []) k l t.proxy_upstreams
            (append-ne-nil (index [] k t.proxy_upstreams) up) c.served;
      rooted = All-insert (λ j v. IsRooted j t.context_roots) k l t.proxy_upstreams r c.rooted;
    }

-- A context root may be added.
insert-IsCoherent :
    (k : String) (root : ContextRoot) (t : Tables)
    → IsCoherent t
    → IsCoherent (record t { context_roots = insert k root t.context_roots })
insert-IsCoherent k root t c = record {
  distinct = c.distinct;
  served = c.served;
  rooted = All-imp _ (λ e. has_key-insert_of k e.0 root t.context_roots) c.rooted;
}

-- The other tables do not matter.
Tables-IsCoherent :
    {t u : Tables}
    → u.proxy_upstreams ≡ t.proxy_upstreams
    → u.context_roots ≡ t.context_roots
    → IsCoherent t
    → IsCoherent u
Tables-IsCoherent p q c = record {
  distinct = rw p c.distinct;
  served = rw p c.served;
  rooted = rw (p, q) c.rooted;
}

add_aliases-IsCoherent :
    (route : Route) (up : Upstream) (aliases : List String) (t : Tables)
    → IsRooted route.domain t.context_roots
    → IsCoherent t
    → IsCoherent (add_aliases route up aliases t)
      × IsRooted route.domain (add_aliases route up aliases t).context_roots
unfolding add_aliases
add_aliases-IsCoherent route up [] t r c = (c, r)
add_aliases-IsCoherent route up (alias ∷ more) t r c =
    let t' : Tables = record t {
      context_roots = insert alias route.context_root t.context_roots;
    } in
    add_aliases-IsCoherent route up more
      (record t' { proxy_upstreams = append_at alias up t.proxy_upstreams })
      (has_key-insert_of alias route.domain route.context_root t.context_roots r)
      (append_at-IsCoherent alias up t'
        (has_key-insert_self alias route.context_root t.context_roots)
        (insert-IsCoherent alias route.context_root t c))

publish-IsCoherent :
    (config : ContainerConfig) (route : Route) (network : Option String) (up : Upstream)
    (t : Tables)
    → IsRooted route.domain t.context_roots
    → IsCoherent t
    → IsCoherent (publish config route network up t)
unfolding publish
publish-IsCoherent config route network up t r c =
    let joined : Tables = record t { networks = join_network network t.networks } in
    let aliases = Labels.alias_domains config in
    let (named, rooted) =
      add_aliases-IsCoherent route up aliases joined r
        (Tables-IsCoherent {t = t} {u = joined} refl refl c) in
    append_at-IsCoherent route.domain up (add_aliases route up aliases joined) rooted named

settle-IsCoherent :
    (info : ContainerJson) (route : Route) (interval : ℤ) (o : Outcome Backend) (t t' : Tables)
    → IsRooted route.domain t.context_roots
    → IsCoherent t
    → settle info route interval o t ≡ ok t'
    → IsCoherent t'
unfolding settle
settle-IsCoherent info route interval (ok b) t t' r c h =
    let (name, _, e) = >>=-eq-ok (slice_from 1 info.name) _ h in
    rw (← ok-injective e) (publish-IsCoherent info.config route b.network _ t r c)
settle-IsCoherent info route interval (err e) t t' r c h = rw (← ok-injective h) c
settle-IsCoherent info route interval panic t t' r c h = cc

module _ (platform : Platform) (cfg : ExtensionConfig) where
  visit_route-IsCoherent :
      (info : ContainerJson) (route : Route) (interval : Outcome ℤ) (t t' : Tables)
      → IsRooted route.domain t.context_roots
      → IsCoherent t
      → visit_route platform cfg info route interval t ≡ ok t'
      → IsCoherent t'
  unfolding visit_route register
  visit_route-IsCoherent info route (ok interval) t t' r c h =
      settle-IsCoherent info route interval
        (find_backend platform cfg.backend_override_address info) (register info.config route t) t'
        r (Tables-IsCoherent {t = t} {u = register info.config route t} refl refl c) h
  visit_route-IsCoherent info route (err e) t t' r c h = rw (← ok-injective h) c
  visit_route-IsCoherent info route panic t t' r c h = cc

  visit_info-IsCoherent :
      (info : ContainerJson) (t t' : Tables)
      → IsCoherent t
      → visit_info platform cfg info t ≡ ok t'
      → IsCoherent t'
  unfolding visit_info register_root
  visit_info-IsCoherent info t t' c h = elim (Option-cases (find_route info.config)) [
    | inl gone ↦ let e : ok t ≡ ok t' = ground arith in rw (← ok-injective e) c
    | inr (route, found) ↦
        visit_route-IsCoherent info route (Labels.health_check_interval info.config)
          (register_root info.config route t) t'
          (has_key-insert_self route.domain route.context_root t.context_roots)
          (Tables-IsCoherent {u = register_root info.config route t} refl refl
            (insert-IsCoherent route.domain route.context_root t c))
          (ground arith)
  ]

  pub visit_all-IsCoherent :
      (cs : List Container) (t t' : Tables)
      → IsCoherent t
      → visit_all platform cfg cs t ≡ ok t'
      → IsCoherent t'
  unfolding visit_all visit
  visit_all-IsCoherent [] t t' c h = rw (← ok-injective h) c
  visit_all-IsCoherent (x ∷ cs) t t' c h =
      let (mid, visited, rest) = >>=-eq-ok (visit platform cfg x t) (visit_all platform cfg cs) h in
      let (id, _, inspected) = >>=-eq-ok (slice_to 12 x.id) _ visited in
      let (info, _, done) = >>=-eq-ok (platform.container_inspect id) _ inspected in
      visit_all-IsCoherent cs mid t' (visit_info-IsCoherent info t mid c done) rest
