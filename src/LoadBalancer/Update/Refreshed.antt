-- ===== src/LoadBalancer/Update/Refreshed.antt =====
-- What an update of the proxies asks of the engine.
use interlock_old.Prelude.{
  ◌≡◌, refl, inl, inr, arith, String, ◌||◌, List, [], ◌∷◌, ◌++◌, map, All, All-imp, Bool-cases,
  if◌then◌else◌,
}
use interlock_old.Go.Outcome.{ok, Outcome-cases}
use interlock_old.Go.Maps.{Map, has_key}
use interlock_old.Go.FilePath.{base, dir}
use interlock_old.Platform.{Platform, Container}
use interlock_old.Engine.{
  Engine, Effect, copy_to_container, network_connect, sleep, State, and_then, ask, meanwhile,
}
use interlock_old.Engine.Effects.{Asks, Asks-quiet, Asks-value, Asks-after, Asks-and_then, IsCalm}
use interlock_old.LoadBalancer.Restart.{proxy_containers_to_restart}
use interlock_old.LoadBalancer.Restart.Members.{proxy_containers_to_restart-ok}
use interlock_old.LoadBalancer.Reload.Kept.{HasLogName}
use interlock_old.LoadBalancer.Update.{
  Backend, proxies_of, is_self, node_answer, proxy_containers, copy_all, save_config, connect_one,
  connect_all, interlock_nodes, refresh,
}

-- The networks to which a container is not connected.
abbrev pub missing_networks : Container → Map String → List String
missing_networks cnt [] = []
missing_networks cnt ((net, value) ∷ networks) =
    if has_key net cnt.networks
    then missing_networks cnt networks
    else net ∷ missing_networks cnt networks

abbrev pub connections : Map String → List Container → List Effect
connections networks [] = []
connections networks (cnt ∷ cnts) =
    map (λ net. network_connect net cnt.id) (missing_networks cnt networks)
    ++ connections networks cnts

-- The containers that count as Interlock nodes, by the answers of one time.
abbrev pub nodes_among : String → Platform → List Container → List Container
nodes_among node_id platform [] = []
nodes_among node_id platform (cnt ∷ cnts) =
    if is_self node_id cnt || node_answer (platform.container_inspect cnt.id)
    then cnt ∷ nodes_among node_id platform cnts
    else nodes_among node_id platform cnts

module _ (engine : Engine) where
  Asks-copy_all :
      (folder file text : String) (cnts : List Container) (s : State engine.World)
      → Asks
          (copy_all engine folder file text cnts s)
          s.asked
          (map (λ cnt. copy_to_container cnt.id folder file text) cnts)
          tt
  unfolding copy_all ask
  Asks-copy_all folder file text [] s = Asks-quiet tt s
  Asks-copy_all folder file text (cnt ∷ cnts) s =
      Asks-after (copy_to_container cnt.id folder file text ∷ []) refl (
        Asks-copy_all folder file text cnts
          (ask engine (copy_to_container cnt.id folder file text) s).1)

  Asks-connect_one :
      (cnt : Container) (networks : Map String) (s : State engine.World)
      → Asks
          (connect_one engine cnt networks s)
          s.asked
          (map (λ net. network_connect net cnt.id) (missing_networks cnt networks))
          tt
  unfolding connect_one ask
  Asks-connect_one cnt [] s = Asks-quiet tt s
  Asks-connect_one cnt ((net, value) ∷ networks) s = elim (Bool-cases (has_key net cnt.networks)) [
    | inl there ↦ rw (there, connect_one) (Asks-connect_one cnt networks s)
    | inr absent ↦
        rw (absent, connect_one)
          (Asks-after (network_connect net cnt.id ∷ []) refl
            (Asks-connect_one cnt networks (ask engine (network_connect net cnt.id) s).1))
  ]

  Asks-connect_all :
      (networks : Map String) (cnts : List Container) (s : State engine.World)
      → Asks (connect_all engine networks cnts s) s.asked (connections networks cnts) tt
  unfolding connect_all
  Asks-connect_all networks [] s = Asks-quiet tt s
  Asks-connect_all networks (cnt ∷ cnts) s =
      Asks-and_then (connect_one engine cnt networks s) (λ _. connect_all engine networks cnts)
        (Asks-connect_one cnt networks s) (Asks-connect_all networks cnts _)

  interlock_nodes-among :
      (node_id : String) (cnts : List Container) (s : State engine.World)
      → ((id : String) → IsCalm ((engine.answers s.world).container_inspect id))
      → interlock_nodes engine node_id cnts s
        ≡ (ok (nodes_among node_id (engine.answers s.world) cnts), s)
  unfolding interlock_nodes
  interlock_nodes-among node_id [] s calm = refl
  interlock_nodes-among node_id (cnt ∷ cnts) s calm = elim (Bool-cases (is_self node_id cnt)) [
    | inl self ↦ rw (self, interlock_nodes, interlock_nodes-among node_id cnts s calm) refl
    | inr other ↦ elim (Outcome-cases ((engine.answers s.world).container_inspect cnt.id)) [
      | inl (info, found) ↦
          rw (other, found, interlock_nodes, interlock_nodes-among node_id cnts s calm) refl
      | inr (inl (e, found)) ↦
          rw (other, found, interlock_nodes, interlock_nodes-among node_id cnts s calm) refl
      | inr (inr found) ↦ absurd (rw found at (calm cnt.id))
    ]
  ]

  pub proxy_containers-of :
      (name : String) (containers : List Container) (s : State engine.World)
      → engine.container_list s.world ≡ ok containers
      → proxy_containers engine name s ≡ (ok (proxies_of name containers), s)
  unfolding proxy_containers
  proxy_containers-of name containers s listed = rw (listed, proxy_containers) refl

  save_config-rendered :
      (backend : Backend engine) (cfg : backend.Config) (proxies : List Container) (text : String)
      (s : State engine.World)
      → backend.render cfg ≡ ok text
      → save_config engine backend cfg proxies s
        ≡ copy_all engine (dir backend.config_path) (base backend.config_path) text proxies s
  unfolding save_config
  save_config-rendered backend cfg proxies text s rendered = rw (rendered, save_config) refl

  module _ (backend : Backend engine) (node_id : String) where
    -- The end of a round: the share of this node is reloaded after a pause.
    Asks-reload_share :
        (Reloads : List Container → List Effect → Type 0) (nodes proxies : List Container)
        (s : State engine.World)
        → ((cnts : List Container) (t : State engine.World)
            → All HasLogName cnts
            → (effects : List Effect) × Reloads cnts effects
              × Asks (backend.reload cnts t) t.asked effects tt)
        → All HasLogName proxies
        → (restart : List Container) × (proxy_containers_to_restart node_id nodes proxies
            ≡ ok restart)
          × (effects : List Effect) × Reloads restart effects
          × Asks
              (and_then
                (proxy_containers_to_restart node_id nodes proxies, s)
                (λ restart t. backend.reload restart (ask engine (sleep 1000) t).1))
              s.asked
              (sleep 1000 ∷ effects)
              tt
    unfolding ask
    Asks-reload_share Reloads nodes proxies s reloads logged =
        let (restart, chosen, members) =
          proxy_containers_to_restart-ok HasLogName node_id nodes proxies logged
            (All-imp proxies (λ c h. omega (arith, h.long_id)) logged) in
        let (effects, reloaded, asks) = reloads restart (ask engine (sleep 1000) s).1 members in
        (restart, chosen, effects, reloaded, rw chosen (Asks-after (sleep 1000 ∷ []) refl asks))

    pub Asks-refresh :
        (Reloads : List Container → List Effect → Type 0) (containers again : List Container)
        (cfg : backend.Config) (text : String) (s : State engine.World)
        → ((cnts : List Container) (t : State engine.World)
            → All HasLogName cnts
            → (effects : List Effect) × Reloads cnts effects
              × Asks (backend.reload cnts t) t.asked effects tt)
        → engine.container_list s.world ≡ ok containers
        → backend.generate_proxy_config (engine.answers s.world) containers ≡ ok cfg
        → engine.container_list (engine.passes s.world) ≡ ok again
        → backend.render cfg ≡ ok text
        → ((w : engine.World) (id : String) → IsCalm ((engine.answers w).container_inspect id))
        → All HasLogName (proxies_of backend.name again)
        → (w : engine.World) × (restart : List Container) × (proxy_containers_to_restart node_id
              (nodes_among node_id (engine.answers w) containers)
              (proxies_of backend.name again)
            ≡ ok restart)
          × (effects : List Effect) × Reloads restart effects
          × Asks
              (refresh engine backend node_id s)
              s.asked
              (map
                  (λ cnt.
                    copy_to_container cnt.id
                      (dir backend.config_path)
                      (base backend.config_path)
                      text)
                  (proxies_of backend.name again)
                ++ (connections (backend.networks cfg) (proxies_of backend.name again)
                    ++ (sleep 1000 ∷ effects)))
              tt
    unfolding refresh ask meanwhile
    Asks-refresh Reloads containers again cfg text s reloads listed generated listed_again rendered
          calm logged =
        let s0 = (meanwhile engine s).1 in
        let proxies = proxies_of backend.name again in
        let s1 =
          (copy_all engine (dir backend.config_path) (base backend.config_path) text proxies
            s0).1 in
        let s2 = (connect_all engine (backend.networks cfg) proxies s1).1 in
        let nodes = nodes_among node_id (engine.answers s2.world) containers in
        let (restart, chosen, effects, reloaded, reloading) =
          Asks-reload_share Reloads nodes proxies s2 reloads logged in
        (
          s2.world,
          restart,
          chosen,
          effects,
          reloaded,
          Asks-and_then (engine.container_list s.world, s) _ (Asks-value s listed)
              (Asks-and_then (backend.generate_proxy_config (engine.answers s.world) containers, s)
                _ (Asks-value s generated)
                (rw (proxy_containers-of backend.name again s0 listed_again) (
                  rw (save_config-rendered backend cfg proxies text s0 rendered) (
                    Asks-and_then
                      (copy_all engine (dir backend.config_path) (base backend.config_path) text
                        proxies s0)
                      _
                      (Asks-copy_all (dir backend.config_path) (base backend.config_path) text
                        proxies s0)
                      (Asks-and_then (connect_all engine (backend.networks cfg) proxies s1) _
                        (Asks-connect_all (backend.networks cfg) proxies s1)
                        (rw (interlock_nodes-among node_id containers s2 (calm s2.world))
                          reloading)))))),
        )
