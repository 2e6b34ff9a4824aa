-- ===== src/Nginx/Coherence.antt =====
-- What holds of the tables between two rounds: no key stands twice, every host with upstream servers
-- has a context root and server names, and its first server name is its own.
use interlock_old.Prelude.{
  String, ◌≡◌, ◌≢◌, refl, true, inl, inr, List, [], ◌∷◌, ◌++◌, All, All-imp, arith, Bool-cases,
  Option-cases, if◌then◌else◌,
}
use interlock_old.Go.Outcome.{Outcome, ok, err, panic, >>=-eq-ok, ok-injective}
use interlock_old.Go.Text.{slice_to}
use interlock_old.Go.Maps.{Map, index, has_key, insert, append_at}
use interlock_old.Go.Maps.Keys.{
  HasDistinctKeys, insert-HasDistinctKeys, All-insert, All-index, has_key-insert_self,
  has_key-insert_of,
}
use interlock_old.Platform.{Platform, Container, ContainerConfig, ContainerJson}
use interlock_old.Config.{ExtensionConfig}
use interlock_old.Labels
use interlock_old.Address.{Backend, find_backend}
use interlock_old.Routing.{Route, find_route}
use interlock_old.Nginx.{
  Tables, no_tables, register, join_network, add_endpoints, add_aliases, publish, settle,
  visit_info, visit_answer, visit, visit_all,
}

abbrev pub BeginsWith : String → List String → Type 0
BeginsWith k [] = ⊥
BeginsWith k (name ∷ more) = name ≡ k

abbrev pub IsReady : String → Tables → Type 0
IsReady k t = (has_key k t.context_roots ≡ true) × (has_key k t.server_names ≡ true)

pub record IsCoherent (t : Tables) : Type 0 where
  pub distinct : HasDistinctKeys t.upstream_servers
  pub served : All (λ e. e.1 ≢ []) t.upstream_servers
  pub ready : All (λ e. IsReady e.0 t) t.upstream_servers
  pub names : All (λ e. BeginsWith e.0 e.1) t.server_names

pub no_tables-IsCoherent : IsCoherent no_tables
no_tables-IsCoherent = record { distinct = tt; served = tt; ready = tt; names = tt }

-- A round takes tables to tables that keep every context root and every list of server names.
record Keeps (t t' : Tables) : Type 0 where
  upstreams : t'.upstream_servers ≡ t.upstream_servers
  ready : (k : String) → IsReady k t → IsReady k t'
  names : All (λ e. BeginsWith e.0 e.1) t'.server_names

Keeps-IsCoherent : {t t' : Tables} → Keeps t t' → IsCoherent t → IsCoherent t'
Keeps-IsCoherent h c = record {
  distinct = rw h.upstreams c.distinct;
  served = rw h.upstreams c.served;
  ready = rw h.upstreams (All-imp _ (λ e. h.ready e.0) c.ready);
  names = h.names;
}

names-register :
    (k : String) (m : Map (List String))
    → All (λ e. BeginsWith e.0 e.1) m
    → All (λ e. BeginsWith e.0 e.1) (if has_key k m then m else insert k (k ∷ []) m)
names-register k m h = elim (Bool-cases (has_key k m)) [
  | inl old ↦ rw old h
  | inr new ↦ rw new (All-insert BeginsWith k (k ∷ []) m refl h)
]

keys-register :
    (j k : String) (m : Map (List String))
    → has_key j m ≡ true
    → has_key j (if has_key k m then m else insert k (k ∷ []) m) ≡ true
keys-register j k m h = elim (Bool-cases (has_key k m)) [
  | inl old ↦ rw old h
  | inr new ↦ rw new (has_key-insert_of k j (k ∷ []) m h)
]

key-register :
    (k : String) (m : Map (List String))
    → has_key k (if has_key k m then m else insert k (k ∷ []) m) ≡ true
key-register k m = elim (Bool-cases (has_key k m)) [
  | inl old ↦ rw old old
  | inr new ↦ rw new (has_key-insert_self k (k ∷ []) m)
]

module _ (cfg : ExtensionConfig) (config : ContainerConfig) (route : Route) (t : Tables) where
  register-Keeps : IsCoherent t → Keeps t (register cfg config route t)
  unfolding register
  register-Keeps c = record {
    upstreams = refl;
    ready = λ k r. (
      has_key-insert_of route.domain k route.context_root t.context_roots r.0,
      keys-register k route.domain t.server_names r.1,
    );
    names = names-register route.domain t.server_names c.names;
  }

  register-IsReady : IsReady route.domain (register cfg config route t)
  unfolding register
  register-IsReady = (
    has_key-insert_self route.domain route.context_root t.context_roots,
    key-register route.domain t.server_names,
  )

append_at-key :
    (j k v : String) (m : Map (List String))
    → has_key j m ≡ true
    → has_key j (append_at k v m) ≡ true
unfolding append_at
append_at-key j k v m h = has_key-insert_of k j (index [] k m ++ v ∷ []) m h

BeginsWith-append : (k v : String) (l : List String) → BeginsWith k l → BeginsWith k (l ++ v ∷ [])
BeginsWith-append k v [] h = absurd h
BeginsWith-append k v (x ∷ l) h = h

append_at-names :
    (k v : String) (m : Map (List String))
    → has_key k m ≡ true
    → All (λ e. BeginsWith e.0 e.1) m
    → All (λ e. BeginsWith e.0 e.1) (append_at k v m)
unfolding append_at
append_at-names k v m h a =
    All-insert BeginsWith k _ m
      (BeginsWith-append k v (index [] k m) (All-index BeginsWith [] k m h a)) a

abbrev add_alias : Route → String → Tables → Tables
add_alias route alias t = record t {
  server_names = append_at route.domain alias t.server_names;
  context_roots = insert alias route.context_root t.context_roots;
}

add_alias-IsReady :
    (route : Route) (alias k : String) (t : Tables)
    → IsReady k t
    → IsReady k (add_alias route alias t)
add_alias-IsReady route alias k t r = (
  has_key-insert_of alias k route.context_root t.context_roots r.0,
  append_at-key k route.domain alias t.server_names r.1,
)

add_aliases-Keeps :
    (route : Route) (aliases : List String) (t : Tables)
    → IsReady route.domain t
    → All (λ e. BeginsWith e.0 e.1) t.server_names
    → Keeps t (add_aliases route aliases t)
unfolding add_aliases
add_aliases-Keeps route [] t r n = record { upstreams = refl; ready = λ k s. s; names = n }
add_aliases-Keeps route (alias ∷ more) t r n =
    let rest =
      add_aliases-Keeps route more (add_alias route alias t)
        (add_alias-IsReady route alias route.domain t r)
        (append_at-names route.domain alias t.server_names r.1 n) in
    record {
      upstreams = rest.upstreams;
      ready = λ k s. rest.ready k (add_alias-IsReady route alias k t s);
      names = rest.names;
    }

append-ne-nil : (l : List String) (v : String) → l ++ v ∷ [] ≢ []
append-ne-nil [] v = cc
append-ne-nil (x ∷ l) v = cc

publish-IsCoherent :
    (config : ContainerConfig) (route : Route) (b : Backend) (t : Tables)
    → IsReady route.domain t
    → IsCoherent t
    → IsCoherent (publish config route b t)
unfolding publish append_at
publish-IsCoherent config route b t r c =
    let k = route.domain in
    let joined : Tables = record t {
      networks = join_network b.network t.networks;
      websocket_endpoints =
          add_endpoints k (Labels.websocket_endpoints config) t.websocket_endpoints;
    } in
    let keeps = add_aliases-Keeps route (Labels.alias_domains config) joined r c.names in
    let named : Tables = add_aliases route (Labels.alias_domains config) joined in
    let n =
      Keeps-IsCoherent keeps
        (record { distinct = c.distinct; served = c.served; ready = c.ready; names = c.names }) in
    let l = index [] k named.upstream_servers in
    record {
      distinct = insert-HasDistinctKeys k (l ++ b.addr ∷ []) named.upstream_servers n.distinct;
      served =
          All-insert (λ j v. v ≢ []) k (l ++ b.addr ∷ []) named.upstream_servers
            (append-ne-nil l b.addr) n.served;
      ready =
          All-insert (λ j v. IsReady j named) k (l ++ b.addr ∷ []) named.upstream_servers
            (keeps.ready k r) n.ready;
      names = n.names;
    }

settle-IsCoherent :
    (config : ContainerConfig) (route : Route) (o : Outcome Backend) (t t' : Tables)
    → IsReady route.domain t
    → IsCoherent t
    → settle config route o t ≡ ok t'
    → IsCoherent t'
unfolding settle
settle-IsCoherent config route (ok b) t t' r c h =
    rw (← ok-injective h) (publish-IsCoherent config route b t r c)
settle-IsCoherent config route (err e) t t' r c h = rw (← ok-injective h) c
settle-IsCoherent config route panic t t' r c h = cc

module _ (platform : Platform) (cfg : ExtensionConfig) where
  visit_answer-IsCoherent :
      (answer : Outcome ContainerJson) (t t' : Tables)
      → IsCoherent t
      → visit_answer platform cfg answer t ≡ ok t'
      → IsCoherent t'
  unfolding visit_answer visit_info
  visit_answer-IsCoherent (ok info) t t' c h = elim (Option-cases (find_route info.config)) [
    | inl gone ↦ let e : ok t ≡ ok t' = ground arith in rw (← ok-injective e) c
    | inr (route, found) ↦
        settle-IsCoherent info.config route
          (find_backend platform cfg.backend_override_address info)
          (register cfg info.config route t) t' (register-IsReady cfg info.config route t)
          (Keeps-IsCoherent (register-Keeps cfg info.config route t c) c) (ground arith)
  ]
  visit_answer-IsCoherent (err e) t t' c h = rw (← ok-injective h) c
  visit_answer-IsCoherent panic t t' c h = cc

  pub visit_all-IsCoherent :
      (cs : List Container) (t t' : Tables)
      → IsCoherent t
      → visit_all platform cfg cs t ≡ ok t'
      → IsCoherent t'
  unfolding visit_all visit
  visit_all-IsCoherent [] t t' c h = rw (← ok-injective h) c
  visit_all-IsCoherent (x ∷ cs) t t' c h =
      let (mid, visited, rest) = >>=-eq-ok (visit platform cfg x t) (visit_all platform cfg cs) h in
      let (_, _, answered) = >>=-eq-ok (slice_to 12 x.id) _ visited in
      visit_all-IsCoherent cs mid t'
        (visit_answer-IsCoherent (platform.container_inspect x.id) t mid c answered) rest
