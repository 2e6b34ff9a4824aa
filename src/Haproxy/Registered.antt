-- ===== src/Haproxy/Registered.antt =====
-- What the tables of GenerateProxyConfig in ext/lb/haproxy/generate.go hold of a domain after some
-- containers.
use interlock_old.Prelude.{
  String, ◌≡◌, refl, Bool, false, inl, inr, Option, none, some, List, [], ◌∷◌, arith, ◌==◌, eq_iff,
  Bool-cases, if◌then◌else◌,
}
use interlock_old.Prelude.Int.{ℤ}
use interlock_old.Go.Outcome.{Outcome, ok, err, panic, ◌>>=◌, >>=-eq-ok, ok-injective}
use interlock_old.Go.Text.{slice_to, slice_from}
use interlock_old.Go.Maps.{Map, index, has_key, lookup, index-insert, lookup-insert}
use interlock_old.Platform.{Platform, Container, ContainerConfig, ContainerJson}
use interlock_old.Labels
use interlock_old.Address.{Backend}
use interlock_old.Routing.{Route, find_route}
use interlock_old.Haproxy.{
  Upstream, Tables, insert_check, insert_options, register, join_network, add_aliases, publish,
  settle,
}

-- The settings of a domain so far: the configuration of the last container that registered it, the first
-- health check, the last backend options, and whether the last container with a route to it has its
-- context root rewritten.
pub record Settings : Type 0 where
  pub last : Option ContainerConfig
  pub check : Option String
  pub options : List String
  pub rewrite : Bool

abbrev pub no_settings : Settings
no_settings = record { last = none; check = none; options = []; rewrite = false }

abbrev keep_check : Option String → String → Option String
keep_check (some check) new = some check
keep_check none new = if new == "" then none else some new

abbrev keep_options : List String → List String → List String
keep_options old [] = old
keep_options old (option ∷ options) = option ∷ options

abbrev pub overwrite : ContainerConfig → Settings → Settings
overwrite config s = record {
  last = some config;
  check = keep_check s.check (Labels.health_check config);
  options = keep_options s.options (Labels.backend_options config);
  rewrite = s.rewrite;
}

abbrev pub rewritten : ContainerConfig → Settings → Settings
rewritten config s = record s { rewrite = Labels.context_root_rewrite config }

module _ (d : String) where
  -- A container registers its domain where its check interval can be read.
  abbrev pub settings_of_route : ContainerConfig → Route → Outcome ℤ → Settings → Settings
  settings_of_route config route (ok interval) s =
      if route.domain == d then overwrite config s else s
  settings_of_route config route (err e) s = s
  settings_of_route config route panic s = s

  abbrev pub settings_of_answer : Outcome ContainerJson → Settings → Settings
  settings_of_answer (ok info) s = elim (find_route info.config) [
    | none ↦ s
    | some route ↦
        settings_of_route info.config route (Labels.health_check_interval info.config)
          (if route.domain == d then rewritten info.config s else s)
  ]
  settings_of_answer (err e) s = s
  settings_of_answer panic s = s

  abbrev pub settings_of : Platform → List Container → Settings → Settings
  settings_of platform [] s = s
  settings_of platform (c ∷ cs) s =
      settings_of platform cs
        (settings_of_answer (slice_to 12 c.id >>= platform.container_inspect) s)

abbrev pub last_or {ℓ} : {A : Type ℓ} → (ContainerConfig → A) → A → Settings → A
last_or f a s = elim s.last [ none ↦ a | some config ↦ f config ]

abbrev pub text_or : Option String → String
text_or none = ""
text_or (some s) = s

pub record Tables-HasSettings (d : String) (t : Tables) (s : Settings) : Type 0 where
  pub balance : index "" d t.balance_algorithms ≡ last_or Labels.balance_algorithm "" s
  pub ssl_only : index false d t.ssl_only ≡ last_or Labels.ssl_only false s
  pub ssl_backend : index false d t.ssl_backend ≡ last_or Labels.ssl_backend false s
  pub tls_verify : index "" d t.ssl_backend_tls_verify ≡ last_or Labels.ssl_backend_tls_verify "" s
  pub check : lookup d t.checks ≡ s.check
  pub options : index [] d t.backend_options ≡ s.options
  pub rewrite : index false d t.context_root_rewrites ≡ s.rewrite

lookup-insert_check :
    (k d check : String) (m : Map String)
    → lookup d (insert_check k check m)
      ≡ (if k == d then keep_check (lookup d m) check else lookup d m)
unfolding insert_check has_key
lookup-insert_check k d check m = ground (arith, lookup-insert k d check m, eq_iff k d)

index-insert_options :
    (k d : String) (options : List String) (m : Map (List String))
    → index [] d (insert_options k options m)
      ≡ (if k == d then keep_options (index [] d m) options else index [] d m)
unfolding insert_options
index-insert_options k d [] m = ground arith
index-insert_options k d (option ∷ options) m = rw (index-insert) refl

pub register-HasSettings :
    (d : String) (config : ContainerConfig) (route : Route) (t : Tables) (s : Settings)
    → Tables-HasSettings d t s
    → Tables-HasSettings d
        (register config route t)
        (if route.domain == d then overwrite config s else s)
unfolding register
register-HasSettings d config route t s h =
    let k = route.domain in
    elim (Bool-cases (k == d)) [
      | inl same ↦ rw same (record {
        balance = rw (index-insert, same);
        ssl_only = rw (index-insert, same);
        ssl_backend = rw (index-insert, same);
        tls_verify = rw (index-insert, same);
        check = rw (lookup-insert_check, same, h.check);
        options = rw (index-insert_options, same, h.options);
        rewrite = h.rewrite;
      })
      | inr other ↦ rw other (record {
        balance = rw (index-insert, other) h.balance;
        ssl_only = rw (index-insert, other) h.ssl_only;
        ssl_backend = rw (index-insert, other) h.ssl_backend;
        tls_verify = rw (index-insert, other) h.tls_verify;
        check = rw (lookup-insert_check, other) h.check;
        options = rw (index-insert_options, other) h.options;
        rewrite = h.rewrite;
      })
    ]

-- Upstreams, context roots and networks are no settings.
pub reuse-HasSettings :
    (d : String) (t u : Tables) (s : Settings)
    → u.balance_algorithms ≡ t.balance_algorithms
    → u.ssl_only ≡ t.ssl_only
    → u.ssl_backend ≡ t.ssl_backend
    → u.ssl_backend_tls_verify ≡ t.ssl_backend_tls_verify
    → u.checks ≡ t.checks
    → u.backend_options ≡ t.backend_options
    → u.context_root_rewrites ≡ t.context_root_rewrites
    → Tables-HasSettings d t s
    → Tables-HasSettings d u s
reuse-HasSettings d t u s b o k v c p r h = record {
  balance = rw b h.balance;
  ssl_only = rw o h.ssl_only;
  ssl_backend = rw k h.ssl_backend;
  tls_verify = rw v h.tls_verify;
  check = rw c h.check;
  options = rw p h.options;
  rewrite = rw r h.rewrite;
}

module _ (d : String) (s : Settings) where
  add_aliases-HasSettings :
      (route : Route) (up : Upstream) (aliases : List String) (t : Tables)
      → Tables-HasSettings d t s
      → Tables-HasSettings d (add_aliases route up aliases t) s
  unfolding add_aliases
  add_aliases-HasSettings route up [] t h = h
  add_aliases-HasSettings route up (alias ∷ more) t h =
      add_aliases-HasSettings route up more _
        (reuse-HasSettings d t _ s refl refl refl refl refl refl refl h)

  publish-HasSettings :
      (config : ContainerConfig) (route : Route) (network : Option String) (up : Upstream)
      (t : Tables)
      → Tables-HasSettings d t s
      → Tables-HasSettings d (publish config route network up t) s
  unfolding publish
  publish-HasSettings config route network up t h =
      let joined : Tables = record t { networks = join_network network t.networks } in
      let named : Tables = add_aliases route up (Labels.alias_domains config) joined in
      reuse-HasSettings d named _ s refl refl refl refl refl refl refl (
        add_aliases-HasSettings route up (Labels.alias_domains config) joined
          (reuse-HasSettings d t joined s refl refl refl refl refl refl refl h))

  pub settle-HasSettings :
      (info : ContainerJson) (route : Route) (interval : ℤ) (o : Outcome Backend) (t t' : Tables)
      → Tables-HasSettings d t s
      → settle info route interval o t ≡ ok t'
      → Tables-HasSettings d t' s
  unfolding settle
  settle-HasSettings info route interval (ok b) t t' h e =
      let (name, _, done) = >>=-eq-ok (slice_from 1 info.name) _ e in
      rw (← ok-injective done) (publish-HasSettings info.config route b.network _ t h)
  settle-HasSettings info route interval (err x) t t' h e = rw (← ok-injective e) h
  settle-HasSettings info route interval panic t t' h e = cc
