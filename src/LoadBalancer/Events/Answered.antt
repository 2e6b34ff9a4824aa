-- ===== src/LoadBalancer/Events/Answered.antt =====
-- Container events that are answered by a request to reload.
use interlock_old.Prelude.{◌≡◌, refl, true, false, List, [], ◌∷◌, ◌++◌, ◌==◌}
use interlock_old.Go.Outcome.{ok}
use interlock_old.Platform.{ContainerJson}
use interlock_old.Engine.{Engine, Effect, cache_set, sleep, State, ask, and_then}
use interlock_old.Engine.Effects.{Asks, Asks-quiet, Asks-after, Asks-and_then}
use interlock_old.Platform.{Message}
use interlock_old.LoadBalancer.Events.{
  is_monitored, exposed_answer, is_forced, is_network_action, is_exposed_container, status_reload,
  action_reload, request, handle_event,
}

-- What the event's status calls for, and the pause that this takes.
pub data Calls (engine : Engine) (msg : Message) (s : State engine.World)
    : List Effect → Type 0 where
  node_starts : msg.status ≡ "interlock-start" → Calls engine msg s []
  node_restarts : msg.status ≡ "interlock-restart" → Calls engine msg s []
  destroyed : msg.status ≡ "destroy" → Calls engine msg s []
  starts :
      (info : ContainerJson)
      → msg.status ≡ "start"
      → (engine.answers s.world).container_inspect msg.id ≡ ok info
      → is_monitored info ≡ true
      → Calls engine msg s []
  stops :
      (info : ContainerJson)
      → msg.status ≡ "stop"
      → (engine.answers s.world).container_inspect msg.id ≡ ok info
      → is_monitored info ≡ true
      → Calls engine msg s (sleep 250 ∷ [])

module _ (engine : Engine) (msg : Message) where
  Asks-forced :
      (s : State engine.World)
      → (msg.status == "start") ≡ false
      → (msg.status == "stop") ≡ false
      → is_forced msg.status ≡ true
      → Asks (status_reload engine msg s) s.asked [] true
  unfolding status_reload
  Asks-forced s no_start no_stop forced =
      rw (no_start, no_stop, forced, status_reload) (Asks-quiet true s)

  Asks-status :
      (s : State engine.World) {pauses : List Effect}
      → Calls engine msg s pauses
      → Asks (status_reload engine msg s) s.asked pauses true
  unfolding status_reload is_forced is_exposed_container exposed_answer ask
  Asks-status s (node_starts e) = Asks-forced s (rw e refl) (rw e refl) (rw (e, is_forced) refl)
  Asks-status s (node_restarts e) = Asks-forced s (rw e refl) (rw e refl) (rw (e, is_forced) refl)
  Asks-status s (destroyed e) = Asks-forced s (rw e refl) (rw e refl) (rw (e, is_forced) refl)
  Asks-status s (starts info e found holds) =
      let is_start : (msg.status == "start") ≡ true = rw e refl in
      rw (is_start, found, holds, status_reload) (Asks-quiet true s)
  Asks-status s (stops info e found holds) =
      let no_start : (msg.status == "start") ≡ false = rw e refl in
      let is_stop : (msg.status == "stop") ≡ true = rw e refl in
      rw (no_start, is_stop, found, holds, status_reload)
        (Asks-after (sleep 250 ∷ []) refl (Asks-quiet true (ask engine (sleep 250) s).1))

  Asks-request :
      (s : State engine.World)
      → is_network_action msg.action ≡ false
      → Asks
          (and_then (action_reload engine msg true s) (request engine))
          s.asked
          (cache_set "reload" ∷ [])
          tt
  unfolding action_reload request ask
  Asks-request s container =
      rw (container, action_reload)
        (Asks-after (cache_set "reload" ∷ []) refl
          (Asks-quiet tt (ask engine (cache_set "reload") s).1))

-- A container event asks for a reload if its status forces one, or if a container that starts or stops
-- is inspected and found monitored; after a stop there is a pause of 250 ms before.
pub handle_event-Calls :
    (engine : Engine) (msg : Message) (s : State engine.World) {pauses : List Effect}
    → is_network_action msg.action ≡ false
    → Calls engine msg s pauses
    → Asks (handle_event engine msg s) s.asked (pauses ++ cache_set "reload" ∷ []) tt
unfolding handle_event
handle_event-Calls engine msg s container calls =
    Asks-and_then (status_reload engine msg s)
      (λ reload s'. and_then (action_reload engine msg reload s') (request engine))
      (Asks-status engine msg s calls)
      (Asks-request engine msg (status_reload engine msg s).1 container)
