-- ===== src/Haproxy/Settings.antt =====
-- Where the settings of a host come from: the last container that registers its domain, but for the
-- health check, which is the first that is given, the backend options, which are the last that are
-- given, and the rewrite, which even a container without a readable check interval sets.
use interlock_old.Prelude.{
  String, ◌≡◌, refl, false, inl, inr, List, [], ◌∷◌, map, All, arith, ◌==◌, Bool-cases,
  Option-cases, if◌then◌else◌,
}
use interlock_old.Prelude.Int.{ℤ}
use interlock_old.Go.Outcome.{Outcome, ok, err, panic, ◌>>=◌, >>=-eq-ok, ok-injective}
use interlock_old.Go.Text.{slice_to}
use interlock_old.Go.Maps.{Map, index, lookup, index-insert}
use interlock_old.Platform.{Platform, Container, ContainerConfig, ContainerJson}
use interlock_old.Config.{ExtensionConfig}
use interlock_old.Labels
use interlock_old.Address.{find_backend}
use interlock_old.Routing.{Route, find_route}
use interlock_old.Haproxy.{
  Upstream, Host, Config, Tables, no_tables, register_root, register, visit_route, visit_info,
  visit, visit_all, host_of, build_config, generate_proxy_config,
}
use interlock_old.Haproxy.Registered.{
  Settings, no_settings, rewritten, settings_of_route, settings_of_answer, settings_of, last_or,
  text_or, Tables-HasSettings, register-HasSettings, settle-HasSettings,
}

module _ (platform : Platform) (cfg : ExtensionConfig) (d : String) where
  visit_route-HasSettings :
      (info : ContainerJson) (route : Route) (interval : Outcome ℤ) (t t' : Tables) (s : Settings)
      → Tables-HasSettings d t s
      → visit_route platform cfg info route interval t ≡ ok t'
      → Tables-HasSettings d t' (settings_of_route d info.config route interval s)
  unfolding visit_route
  visit_route-HasSettings info route (ok interval) t t' s h e =
      settle-HasSettings d _ info route interval
        (find_backend platform cfg.backend_override_address info) (register info.config route t) t'
        (register-HasSettings d info.config route t s h) e
  visit_route-HasSettings info route (err x) t t' s h e = rw (← ok-injective e) h
  visit_route-HasSettings info route panic t t' s h e = cc

  register_root-HasSettings :
      (config : ContainerConfig) (route : Route) (t : Tables) (s : Settings)
      → Tables-HasSettings d t s
      → Tables-HasSettings d
          (register_root config route t)
          (if route.domain == d then rewritten config s else s)
  unfolding register_root
  register_root-HasSettings config route t s h = elim (Bool-cases (route.domain == d)) [
    | inl same ↦ rw same (record {
      balance = h.balance;
      ssl_only = h.ssl_only;
      ssl_backend = h.ssl_backend;
      tls_verify = h.tls_verify;
      check = h.check;
      options = h.options;
      rewrite = rw (index-insert, same);
    })
    | inr other ↦ rw other (record {
      balance = h.balance;
      ssl_only = h.ssl_only;
      ssl_backend = h.ssl_backend;
      tls_verify = h.tls_verify;
      check = h.check;
      options = h.options;
      rewrite = rw (index-insert, other) h.rewrite;
    })
  ]

  visit_info-HasSettings :
      (info : ContainerJson) (t t' : Tables) (s : Settings)
      → Tables-HasSettings d t s
      → visit_info platform cfg info t ≡ ok t'
      → Tables-HasSettings d t' (settings_of_answer d (ok info) s)
  unfolding visit_info register_root
  visit_info-HasSettings info t t' s h e = elim (Option-cases (find_route info.config)) [
    | inl gone ↦
        let same : ok t ≡ ok t' = ground arith in
        rw (gone, settings_of_answer) (rw (← ok-injective same) h)
    | inr (route, found) ↦
        rw (found, settings_of_answer)
          (visit_route-HasSettings info route (Labels.health_check_interval info.config)
            (register_root info.config route t) t'
            (if route.domain == d then rewritten info.config s else s)
            (register_root-HasSettings info.config route t s h) (ground arith))
  ]

  visit_all-HasSettings :
      (cs : List Container) (t t' : Tables) (s : Settings)
      → Tables-HasSettings d t s
      → visit_all platform cfg cs t ≡ ok t'
      → Tables-HasSettings d t' (settings_of d platform cs s)
  unfolding visit_all visit
  visit_all-HasSettings [] t t' s h e = rw (← ok-injective e) h
  visit_all-HasSettings (c ∷ cs) t t' s h e =
      let (mid, visited, rest) = >>=-eq-ok (visit platform cfg c t) (visit_all platform cfg cs) e in
      let (id, short, inspected) = >>=-eq-ok (slice_to 12 c.id) _ visited in
      let (info, answered, done) = >>=-eq-ok (platform.container_inspect id) _ inspected in
      let found : (slice_to 12 c.id >>= platform.container_inspect) ≡ ok info = rw short answered in
      rw found (
        visit_all-HasSettings cs mid t' (settings_of_answer d (ok info) s)
          (visit_info-HasSettings info t mid s h done) rest)

-- The settings that a host shows.
pub record HasSettings (h : Host) (s : Settings) : Type 0 where
  pub balance : h.balance_algorithm ≡ last_or Labels.balance_algorithm "" s
  pub ssl_only : h.ssl_only ≡ last_or Labels.ssl_only false s
  pub ssl_backend : h.ssl_backend ≡ last_or Labels.ssl_backend false s
  pub tls_verify : h.ssl_backend_tls_verify ≡ last_or Labels.ssl_backend_tls_verify "" s
  pub check : h.check ≡ text_or s.check
  pub options : h.backend_options ≡ s.options
  pub rewrite : h.context_root_rewrite ≡ s.rewrite

no_tables-HasSettings : (d : String) → Tables-HasSettings d no_tables no_settings
unfolding index lookup
no_tables-HasSettings d = record {
  balance = refl;
  ssl_only = refl;
  ssl_backend = refl;
  tls_verify = refl;
  check = refl;
  options = refl;
  rewrite = refl;
}

hosts-HasSettings :
    (t : Tables) (s : String → Settings) (m : Map (List Upstream))
    → ((d : String) → Tables-HasSettings d t (s d))
    → All (λ h. HasSettings h (s h.domain)) (map (host_of t) m)
unfolding host_of
hosts-HasSettings t s [] f = tt
hosts-HasSettings t s ((k, v) ∷ m) f =
    let h = f k in
    (
      record {
        balance = h.balance;
        ssl_only = h.ssl_only;
        ssl_backend = h.ssl_backend;
        tls_verify = h.tls_verify;
        check = unfold index in ground (arith, h.check);
        options = h.options;
        rewrite = h.rewrite;
      },
      hosts-HasSettings t s m f,
    )

-- Every host of a generated configuration has the balance algorithm and the SSL settings of the last
-- container that registers the host's domain, the first health check that such a container gives, and
-- the backend options of the last one that gives any. Its context root is rewritten as the last
-- inspected container with a route to the domain says. A host that is only an alias has none of
-- these: its balance algorithm is empty.
pub generate-HasSettings :
    (platform : Platform) (cfg : ExtensionConfig) (cs : List Container) (config : Config)
    → generate_proxy_config platform cfg cs ≡ ok config
    → All (λ h. HasSettings h (settings_of h.domain platform cs no_settings)) config.hosts
unfolding generate_proxy_config build_config
generate-HasSettings platform cfg cs config e =
    let (t, visited, built) = >>=-eq-ok (visit_all platform cfg cs no_tables) _ e in
    rw (← ok-injective built) (
      hosts-HasSettings t (λ d. settings_of d platform cs no_settings) t.proxy_upstreams
        (λ d.
          visit_all-HasSettings platform cfg d cs no_tables t no_settings (no_tables-HasSettings d)
            visited))
