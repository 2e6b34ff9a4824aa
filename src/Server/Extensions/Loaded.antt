-- ===== src/Server/Extensions/Loaded.antt =====
-- Which extensions the server runs with.
use interlock_old.Prelude.{
  ◌≡◌, ◌∙◌, refl, ◌⊎◌, inl, inr, String, Bool, true, List, [], ◌∷◌, All, some, ◌==◌, eq_iff,
  Bool-cases, Option-cases, ◌||◌, map,
}
use interlock_old.Go.Outcome.{Outcome, ok, err, panic, >>=-eq-ok, ok-injective}
use interlock_old.Config
use interlock_old.Config.{ExtensionConfig}
use interlock_old.Server.Extensions.{
  Host, Extension, load_balancer, beacon, to_lower, new_backend, check_template, with_base_path,
  new_load_balancer, new_ticker, new_beacon, loaded_or_none, load_extension, append_loaded,
  load_all, load_extensions,
}

-- An extension that a configuration stands for: a backend by its exact name, or a beacon, in any case of
-- letters, if metrics are enabled.
pub data StandsFor (enable_metrics : Bool) (c : ExtensionConfig) : Extension → Type 0 where
  balances :
      (id : String)
      → (c.name ≡ "haproxy") ⊎ (c.name ≡ "nginx")
      → StandsFor enable_metrics c (load_balancer c.name id (with_base_path c))
  monitors :
      (id : String)
      → to_lower c.name ≡ "beacon"
      → enable_metrics ≡ true
      → StandsFor enable_metrics c (beacon id (with_base_path c))

-- The extensions stand for some of the configurations, in their order.
pub data StandFor (enable_metrics : Bool) : List ExtensionConfig → List Extension → Type 0 where
  none_left : StandFor enable_metrics [] []
  left_out :
      {c : ExtensionConfig} {cs : List ExtensionConfig} {xs : List Extension}
      → StandFor enable_metrics cs xs
      → StandFor enable_metrics (c ∷ cs) xs
  loaded :
      {c : ExtensionConfig} {cs : List ExtensionConfig} {x : Extension} {xs : List Extension}
      → StandsFor enable_metrics c x
      → StandFor enable_metrics cs xs
      → StandFor enable_metrics (c ∷ cs) (x ∷ xs)

module _ (host : Host) (enable_metrics : Bool) where
  new_backend-exact :
      (name backend : String)
      → new_backend name ≡ ok backend
      → (name ≡ backend) × ((name ≡ "haproxy") ⊎ (name ≡ "nginx"))
  unfolding new_backend
  new_backend-exact name backend h = elim (Bool-cases (name == "haproxy")) [
    | inl same ↦
        let exact = (eq_iff name "haproxy").0 same in
        (exact ∙ ok-injective (rw (same, new_backend) at h), inl exact)
    | inr other ↦ elim (Bool-cases (name == "nginx")) [
      | inl same ↦
          let exact = (eq_iff name "nginx").0 same in
          (exact ∙ ok-injective (rw (other, same, new_backend) at h), inr exact)
      | inr neither ↦ cc (rw (other, neither, new_backend) at h)
    ]
  ]

  new_load_balancer-StandsFor :
      (c : ExtensionConfig) (x : Extension)
      → new_load_balancer host c ≡ ok x
      → StandsFor enable_metrics c x
  unfolding new_load_balancer
  new_load_balancer-StandsFor c x h =
      let (_, _, cached) = >>=-eq-ok (check_template host c) _ h in
      let (_, _, named) = >>=-eq-ok host.new_cache _ cached in
      let (id, _, chosen) = >>=-eq-ok host.container_id _ named in
      let (backend, found, built) = >>=-eq-ok (new_backend c.name) _ chosen in
      let (same, supported) = new_backend-exact c.name backend found in
      rw (← ok-injective built, ← same) (balances id supported)

  new_beacon-StandsFor :
      (c : ExtensionConfig) (x : Extension)
      → to_lower c.name ≡ "beacon"
      → enable_metrics ≡ true
      → new_beacon host c ≡ ok x
      → StandsFor enable_metrics c x
  unfolding new_beacon
  new_beacon-StandsFor c x named enabled h =
      let (id, _, timed) = >>=-eq-ok host.container_id _ h in
      let (d, _, ticking) = >>=-eq-ok (host.parse_duration c.stats_interval) _ timed in
      let (_, _, built) = >>=-eq-ok (new_ticker d) _ ticking in
      rw (← ok-injective built) (monitors id named enabled)

  loaded_or_none-some :
      (o : Outcome Extension) (x : Extension) → loaded_or_none o ≡ ok (some x) → o ≡ ok x
  unfolding loaded_or_none
  loaded_or_none-some (ok y) x h = cc (ok-injective h)
  loaded_or_none-some (err e) x h = cc (ok-injective h)
  loaded_or_none-some panic x h = cc h

  load_extension-StandsFor :
      (c : ExtensionConfig) (x : Extension)
      → load_extension host enable_metrics c ≡ ok (some x)
      → StandsFor enable_metrics c x
  unfolding load_extension
  load_extension-StandsFor c x h =
      elim (Bool-cases (to_lower c.name == "haproxy" || to_lower c.name == "nginx")) [
        | inl balancer ↦
            new_load_balancer-StandsFor c x (
              loaded_or_none-some (new_load_balancer host c) x (rw (balancer, load_extension) at h))
        | inr other ↦ elim (Bool-cases (to_lower c.name == "beacon")) [
          | inl named ↦ elim (Bool-cases enable_metrics) [
            | inl enabled ↦
                new_beacon-StandsFor c x ((eq_iff (to_lower c.name) "beacon").0 named) enabled (
                  loaded_or_none-some (new_beacon host c) x
                    (rw (other, named, enabled, load_extension) at h))
            | inr disabled ↦ cc (rw (other, named, disabled, load_extension) at h)
          ]
          | inr unknown ↦ cc (rw (other, unknown, load_extension) at h)
        ]
      ]

  load_all-StandFor :
      (cs : List ExtensionConfig) (xs : List Extension)
      → load_all host enable_metrics cs ≡ ok xs
      → StandFor enable_metrics cs xs
  unfolding load_all append_loaded
  load_all-StandFor [] xs h = rw (← ok-injective h) none_left
  load_all-StandFor (c ∷ cs) xs h =
      let (x, first, others) = >>=-eq-ok (load_extension host enable_metrics c) _ h in
      let (ys, rest, built) = >>=-eq-ok (load_all host enable_metrics cs) _ others in
      let later = load_all-StandFor cs ys rest in
      elim (Option-cases x) [
        | inl gone ↦ rw (← ok-injective built, gone) (left_out later)
        | inr (y, found) ↦
            rw (← ok-injective built, found)
              (loaded (load_extension-StandsFor c y (rw (found) at first)) later)
      ]

-- If the server comes to run, its extensions stand for some of the configurations, in their order: a load
-- balancer only for one whose name is that of a backend in its own case, although the server looks
-- at names in any case, and a beacon only if metrics are enabled.
pub load_extensions-StandFor :
    (host : Host) (cfg : Config.Config) (xs : List Extension)
    → load_extensions host cfg ≡ ok xs
    → StandFor cfg.enable_metrics cfg.extensions xs
unfolding load_extensions
load_extensions-StandFor host cfg xs h =
    load_all-StandFor host cfg.enable_metrics cfg.extensions xs h

-- A configuration of a load balancer by its exact name, without a template or with one that is there.
pub record IsReady (host : Host) (c : ExtensionConfig) : Type 0 where
  pub named : (c.name ≡ "haproxy") ⊎ (c.name ≡ "nginx")
  pub template : (c.template_path ≡ "") ⊎ (host.is_file c.template_path ≡ true)

module _ (host : Host) (id : String) (cached : host.new_cache ≡ ok tt)
    (node : host.container_id ≡ ok id) where
  check_template-ok : (c : ExtensionConfig) → IsReady host c → check_template host c ≡ ok tt
  unfolding check_template
  check_template-ok c ready = elim ready.template [
    | inl none_set ↦ rw (none_set, check_template) refl
    | inr there ↦ elim (Bool-cases (c.template_path == "")) [
      | inl empty ↦ rw (empty, check_template) refl
      | inr set ↦ rw (set, there, check_template) refl
    ]
  ]

  new_load_balancer-ok :
      (c : ExtensionConfig)
      → IsReady host c
      → new_load_balancer host c ≡ ok (load_balancer c.name id (with_base_path c))
  unfolding new_load_balancer
  new_load_balancer-ok c ready =
      let exact : new_backend c.name ≡ ok c.name = elim ready.named [
        | inl e ↦ rw (e, new_backend) refl
        | inr e ↦ rw (e, new_backend) refl
      ] in
      rw (check_template-ok c ready, cached, node, exact, new_load_balancer) refl

  -- On a host whose cache and node ID are there, load balancers that are ready are all loaded, in order.
  load_all-ok :
      (enable_metrics : Bool) (cs : List ExtensionConfig)
      → All (IsReady host) cs
      → load_all host enable_metrics cs
        ≡ ok (map (λ c. load_balancer c.name id (with_base_path c)) cs)
  unfolding load_all load_extension append_loaded loaded_or_none
  load_all-ok enable_metrics [] ready = refl
  load_all-ok enable_metrics (c ∷ cs) (first, others) =
      let lower : (to_lower c.name == "haproxy" || to_lower c.name == "nginx") ≡ true =
        elim first.named [ inl e ↦ rw (e, to_lower) refl | inr e ↦ rw (e, to_lower) refl ] in
      rw
        (
          load_all,
          load_extension,
          lower,
          new_load_balancer-ok c first,
          load_all-ok enable_metrics cs others,
        )
        refl
