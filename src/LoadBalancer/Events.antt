-- ===== src/LoadBalancer/Events.antt =====
-- HandleEvent of ext/lb/lb.go: which events ask for a reload. The reload itself follows when the entry
-- "reload" of the cache expires.
pub mod Waits
pub mod Due
pub mod Answered
use interlock_old.Prelude.{
  ℕ, zero, suc, String, Bool, true, false, not, ◌&&◌, ◌||◌, List, [], ◌∷◌, Option, none, some, ◌==◌,
}
use interlock_old.Go.Outcome.{Outcome, ok, err, panic}
use interlock_old.Go.Maps.{Map, lookup, has_key}
use interlock_old.Platform.{Message, Platform, ContainerJson}
use interlock_old.Ext
use interlock_old.Engine.{Engine, cache_set, sleep, Run, ◌>>=◌, give, lift, attempt, reading, ask}

-- The tests that isExposedContainer makes of an inspected container.
unfoldable pub is_monitored : ContainerJson → Bool
unfolding has_key
is_monitored info =
    not (has_key Ext.ext_name_label info.config.labels)
    && not (has_key Ext.app_label info.config.labels)
    && elim (info.config.exposed_ports) [ [] ↦ false | port ∷ ports ↦ true ]

-- Errors of the inspection are ignored.
unfoldable pub exposed_answer : Outcome ContainerJson → Bool
unfolding is_monitored
exposed_answer (ok info) = is_monitored info
exposed_answer (err e) = false
exposed_answer panic = false

unfoldable pub is_forced : String → Bool
is_forced status =
    status == "interlock-start" || status == "interlock-restart" || status == "destroy"

unfoldable pub is_network_action : String → Bool
is_network_action action = action == "connect" || action == "disconnect"

unfoldable pub attribute : String → String → Message → Outcome String
unfolding lookup
attribute key missing msg = elim (lookup key msg.attributes) [ none ↦ err missing | some v ↦ ok v ]

module _ (engine : Engine) where
  unfoldable pub is_exposed_container : String → Run engine.World Bool
  unfolding exposed_answer
  is_exposed_container id = do
    answer ← attempt (reading (λ w. (engine.answers w).container_inspect id))
    give (exposed_answer answer)

  unfoldable pub is_container_connected : String → String → Run engine.World Bool
  unfolding has_key
  is_container_connected id net = do
    network ← reading (λ w. (engine.answers w).network_inspect net)
    give (has_key id network.containers)

  -- The loop that waits for the network to connect the container.
  unfoldable pub wait_connected : ℕ → String → String → Run engine.World (Unit {0})
  unfolding is_container_connected ask
  wait_connected zero id net = give tt
  wait_connected (suc rounds) id net = do
    connected ← is_container_connected id net
    elim connected [
      | true ↦ give tt
      | false ↦ do _ ← ask engine (sleep 500); wait_connected rounds id net
    ]

  -- The switch over event.Status.
  unfoldable pub status_reload : Message → Run engine.World Bool
  unfolding is_exposed_container ask is_forced
  status_reload msg = elim (msg.status == "start") [
    | true ↦ is_exposed_container msg.id
    | false ↦ elim (msg.status == "stop") [
      | true ↦ do reload ← is_exposed_container msg.id; _ ← ask engine (sleep 250); give reload
      | false ↦ give (is_forced msg.status)
    ]
  ]

  -- The switch over event.Action, which overwrites what the status said.
  unfoldable pub action_reload : Message → Bool → Run engine.World Bool
  unfolding is_network_action attribute wait_connected is_exposed_container
  action_reload msg reload = elim (is_network_action msg.action) [
    | false ↦ give reload
    | true ↦ do
      id ← lift (attribute "container" "unable to detect container id for network event" msg)
      net ← lift (attribute "name" "unable to detect container network name for network event" msg)
      _ ← wait_connected 5 id net
      is_exposed_container id
  ]

  unfoldable pub request : Bool → Run engine.World (Unit {0})
  unfolding ask
  request true = do _ ← ask engine (cache_set "reload"); give tt
  request false = give tt

  unfoldable pub handle_event : Message → Run engine.World (Unit {0})
  unfolding status_reload action_reload request
  handle_event msg = do
    by_status ← status_reload msg
    reload ← action_reload msg by_status
    request reload
