-- ===== src/Nginx/Totality.antt =====
-- When nginx's configuration is generated at all.
use Prim.Native.String.{len}
use interlock_old.Prelude.{
  ◌≡◌, ◌≢◌, ◌≤◌, refl, inl, inr, List, [], ◌∷◌, All, arith, le→leb, Option-cases,
}
use interlock_old.Go.Outcome.{Outcome, ok, err, panic}
use interlock_old.Go.Text.{slice_to}
use interlock_old.Platform.{Platform, Container, ContainerConfig, ContainerJson}
use interlock_old.Config.{ExtensionConfig}
use interlock_old.Address.{Backend, find_backend}
use interlock_old.Address.Panics.{Returns, NamesUnpublishedPort, find_backend-panic_iff}
use interlock_old.Routing.{Route, find_route}
use interlock_old.Nginx.{
  Config, Tables, no_tables, register, settle, visit_info, visit_answer, visit, visit_all,
  build_config, generate_proxy_config,
}

-- The ID can be cut to 12 bytes, and the container, if it can be inspected, does not name an
-- unpublished port.
abbrev pub IsSound : Outcome ContainerJson → Type 0
IsSound (ok info) = ¬ NamesUnpublishedPort info
IsSound (err e) = Unit
IsSound panic = Unit

abbrev pub IsSafe : Platform → Container → Type 0
IsSafe platform c = (12 ≤ len c.id) × IsSound (platform.container_inspect c.id)

settle-ok :
    (config : ContainerConfig) (route : Route) (o : Outcome Backend) (t : Tables)
    → o ≢ panic
    → (t' : Tables) × (settle config route o t ≡ ok t')
unfolding settle
settle-ok config route (ok b) t h = (_, refl)
settle-ok config route (err e) t h = (t, refl)
settle-ok config route panic t h = absurd (h refl)

module _ (platform : Platform) (cfg : ExtensionConfig) (returns : Returns platform) where
  visit_answer-ok :
      (answer : Outcome ContainerJson) (t : Tables)
      → answer ≢ panic
      → IsSound answer
      → (t' : Tables) × (visit_answer platform cfg answer t ≡ ok t')
  unfolding visit_answer visit_info
  visit_answer-ok (ok info) t h s = elim (Option-cases (find_route info.config)) [
    | inl gone ↦ (t, ground arith)
    | inr (route, found) ↦
        let override = cfg.backend_override_address in
        let (t', settled) =
          settle-ok info.config route (find_backend platform override info)
            (register cfg info.config route t)
            (λ p. s ((find_backend-panic_iff platform returns override info).0 p)) in
        (t', ground arith)
  ]
  visit_answer-ok (err e) t h s = (t, refl)
  visit_answer-ok panic t h s = absurd (h refl)

  visit_all-ok :
      (cs : List Container) (t : Tables)
      → All (IsSafe platform) cs
      → (t' : Tables) × (visit_all platform cfg cs t ≡ ok t')
  unfolding visit_all visit slice_to
  visit_all-ok [] t h = (t, refl)
  visit_all-ok (c ∷ cs) t ((long, sound), h) =
      let (mid, visited) =
        visit_answer-ok (platform.container_inspect c.id) t (returns.container_inspect c.id)
          sound in
      let (t', rest) = visit_all-ok cs mid h in (t', rw (le→leb 12 (len c.id) long, visited) rest)

-- If the calls of the engine and of net.ParseCIDR return, every ID has at least 12 bytes and no
-- container that can be inspected names an unpublished port, then a configuration is generated,
-- whatever errors the engine returns.
pub generate-ok :
    (platform : Platform) (cfg : ExtensionConfig) (cs : List Container)
    → Returns platform
    → All (IsSafe platform) cs
    → (config : Config) × (generate_proxy_config platform cfg cs ≡ ok config)
unfolding generate_proxy_config
generate-ok platform cfg cs returns h =
    let (t, visited) = visit_all-ok platform cfg returns cs no_tables h in
    (build_config cfg t, rw visited)
