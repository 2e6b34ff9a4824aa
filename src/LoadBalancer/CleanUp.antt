-- ===== src/LoadBalancer/CleanUp.antt =====
-- The clean-up of networks in NewLoadBalancer of ext/lb/lb.go: a round of the goroutine over
-- proxyNetworkCleanupChan.
use interlock_old.Prelude.{
  ◌≡◌, ◌≢◌, refl, inl, inr, ℕ, zero, suc, String, true, false, ◌||◌, List, [], ◌∷◌, All, All-IsIn,
  IsIn, none, some, ◌==◌, eq_iff, Bool-cases, Option-cases,
}
use interlock_old.Go.Outcome.{Outcome, ok, err, panic, Outcome-cases}
use interlock_old.Go.Maps.{Map, has_key}
use interlock_old.Platform.{ContainerJson}
use interlock_old.Engine.{
  Engine, Effect, network_disconnect, sleep, State, Run, ◌>>=◌, give, lift, attempt, reading, ask,
}
use interlock_old.Engine.Effects.{Does, Does-and_then, Does-after, Does-quiet, IsCalm}

-- proxyContainerNetworkConfig
pub record ProxyNetworks : Type 0 where
  pub container_id : String
  pub networks : Map String

module _ (engine : Engine) where
  -- The loop over the attempts, of which `retries` are left
  unfoldable pub disconnect : ℕ → String → String → Run engine.World (Unit {0})
  unfolding ask
  disconnect zero net id = give tt
  disconnect (suc retries) net id = do
    e ← ask engine (network_disconnect net id)
    elim e [
      | none ↦ give tt
      | some message ↦ do _ ← ask engine (sleep 2000); disconnect retries net id
    ]

  unfoldable pub leave_networks : List String → ProxyNetworks → Run engine.World (Unit {0})
  unfolding disconnect has_key
  leave_networks [] proxy = give tt
  leave_networks (net ∷ nets) proxy = elim (net == "bridge" || has_key net proxy.networks) [
    | true ↦ leave_networks nets proxy
    | false ↦ do _ ← disconnect 5 net proxy.container_id; leave_networks nets proxy
  ]

  -- An error of the inspection is logged.
  unfoldable pub clean_up_inspected :
      ProxyNetworks → Outcome ContainerJson → Run engine.World (Unit {0})
  unfolding leave_networks
  clean_up_inspected proxy (ok info) = leave_networks info.networks proxy
  clean_up_inspected proxy (err e) = give tt
  clean_up_inspected proxy panic = lift panic

  unfoldable pub clean_up : List ProxyNetworks → Run engine.World (Unit {0})
  unfolding clean_up_inspected
  clean_up [] = give tt
  clean_up (proxy ∷ proxies) = do
    info ← attempt (reading (λ w. (engine.answers w).container_inspect proxy.container_id))
    _ ← clean_up_inspected proxy info
    clean_up proxies

  -- What a clean-up asks for: a proxy leaves a network that is not one of its own and not the bridge,
  -- or a pause before the next attempt.
  pub data IsLeaving (proxies : List ProxyNetworks) : Effect → Type 0 where
    leaves :
        (proxy : ProxyNetworks) (net : String)
        → IsIn proxy proxies
        → net ≢ "bridge"
        → has_key net proxy.networks ≡ false
        → IsLeaving proxies (network_disconnect net proxy.container_id)
    waits : IsLeaving proxies (sleep 2000)

  module _ (proxies : List ProxyNetworks) where
    Does-disconnect :
        (proxy : ProxyNetworks) (net : String) (retries : ℕ) (s : State engine.World)
        → IsLeaving proxies (network_disconnect net proxy.container_id)
        → Does (disconnect retries net proxy.container_id s) s.asked (IsLeaving proxies)
    unfolding disconnect ask
    Does-disconnect proxy net zero s leaving = Does-quiet (ok tt) s tt
    Does-disconnect proxy net (suc retries) s leaving =
        let effect = network_disconnect net proxy.container_id in
        let s1 = (ask engine effect s).1 in
        Does-after (effect ∷ []) refl (leaving, tt)
          (elim (Option-cases (engine.perform effect s.world).0) [
            | inl gone ↦ rw (disconnect, gone) (Does-quiet (ok tt) s1 tt)
            | inr (message, failed) ↦
                rw (disconnect, failed)
                  (Does-after (sleep 2000 ∷ []) refl (waits, tt)
                    (Does-disconnect proxy net retries (ask engine (sleep 2000) s1).1 leaving))
          ])

    Does-leave_networks :
        (proxy : ProxyNetworks) (nets : List String) (s : State engine.World)
        → IsIn proxy proxies
        → Does (leave_networks nets proxy s) s.asked (IsLeaving proxies)
    unfolding leave_networks
    Does-leave_networks proxy [] s member = Does-quiet (ok tt) s tt
    Does-leave_networks proxy (net ∷ nets) s member = elim (Bool-cases (net == "bridge")) [
      | inl bridge ↦ rw (leave_networks, bridge) (Does-leave_networks proxy nets s member)
      | inr other ↦ elim (Bool-cases (has_key net proxy.networks)) [
        | inl own ↦ rw (leave_networks, other, own) (Does-leave_networks proxy nets s member)
        | inr foreign ↦
            rw (leave_networks, other, foreign)
              (Does-and_then (disconnect 5 net proxy.container_id s)
                (λ _. leave_networks nets proxy)
                (Does-disconnect proxy net 5 s
                  (leaves proxy net member (λ e. cc (other, (eq_iff net "bridge").1 e)) foreign))
                (λ _ t. Does-leave_networks proxy nets t member))
      ]
    ]

    Does-clean_up_inspected :
        (proxy : ProxyNetworks) (info : Outcome ContainerJson) (s : State engine.World)
        → IsIn proxy proxies
        → IsCalm info
        → Does (clean_up_inspected proxy info s) s.asked (IsLeaving proxies)
    unfolding clean_up_inspected
    Does-clean_up_inspected proxy (ok info) s member calm =
        Does-leave_networks proxy info.networks s member
    Does-clean_up_inspected proxy (err e) s member calm = Does-quiet (ok tt) s tt
    Does-clean_up_inspected proxy panic s member calm = absurd calm

    Does-clean_up :
        (some_proxies : List ProxyNetworks) (s : State engine.World)
        → All (λ proxy. IsIn proxy proxies) some_proxies
        → ((w : engine.World) (id : String) → IsCalm ((engine.answers w).container_inspect id))
        → Does (clean_up some_proxies s) s.asked (IsLeaving proxies)
    unfolding clean_up
    Does-clean_up [] s members calm = Does-quiet (ok tt) s tt
    Does-clean_up (proxy ∷ others) s (member, members) calm =
        let inspected = (engine.answers s.world).container_inspect proxy.container_id in
        elim (Outcome-cases inspected) [
          | inl (info, found) ↦
              rw (clean_up, found)
                (Does-and_then (clean_up_inspected proxy (ok info) s) (λ _. clean_up others)
                  (Does-clean_up_inspected proxy (ok info) s member tt)
                  (λ _ t. Does-clean_up others t members calm))
          | inr (inl (e, failed)) ↦
              rw (clean_up, failed)
                (Does-and_then (clean_up_inspected proxy (err e) s) (λ _. clean_up others)
                  (Does-clean_up_inspected proxy (err e) s member tt)
                  (λ _ t. Does-clean_up others t members calm))
          | inr (inr panicked) ↦ absurd (rw panicked at (calm s.world proxy.container_id))
        ]

  -- Where no inspection panics, a clean-up ends, and asks for nothing but that a proxy of its list leaves a
  -- network that is not the bridge and not one of the proxy's own, and for pauses.
  clean_up-leaves :
      (proxies : List ProxyNetworks) (s : State engine.World)
      → ((w : engine.World) (id : String) → IsCalm ((engine.answers w).container_inspect id))
      → Does (clean_up proxies s) s.asked (IsLeaving proxies)
  clean_up-leaves proxies s calm = Does-clean_up proxies proxies s (All-IsIn proxies) calm
