-- ===== src/LoadBalancer/Events/Due.antt =====
-- When HandleEvent asks for a reload.
use interlock_old.Prelude.{
  ◌≡◌, refl, ap, ◌⊎◌, inl, inr, ◌≤◌, ◌+◌, ℕ, zero, suc, arith, String, Bool, true, false, List, [],
  ◌∷◌, ◌++◌, map, length, append_assoc, some, Option-cases, Bool-cases, ◌==◌,
}
use interlock_old.Go.Outcome.{Outcome, ok, err, panic, Outcome-cases}
use interlock_old.Go.Maps.{lookup, has_key}
use interlock_old.Platform.{ContainerJson}
use interlock_old.Engine.{Engine, Effect, cache_set, sleep, State, Run, and_then, ask}
use interlock_old.LoadBalancer.Events.Waits.{
  Waits, Waits-none, Waits-after, Waits-weaken, Waits-failed,
}
use interlock_old.Platform.{Message}
use interlock_old.LoadBalancer.Events.{
  is_monitored, exposed_answer, is_forced, is_network_action, attribute, is_exposed_container,
  is_container_connected, wait_connected, status_reload, action_reload, request, handle_event,
}

-- The event names the container, as a container event or as a network event does.
abbrev pub IsNamedBy : Message → String → Type 0
IsNamedBy msg id = (id ≡ msg.id) ⊎ (lookup "container" msg.attributes ≡ some id)

-- A reason to reload: the status forces it, or a container that the event names was found in an
-- inspection to be monitored.
pub data IsDue (engine : Engine) (msg : Message) : Type 0 where
  forced : is_forced msg.status ≡ true → IsDue engine msg
  monitored :
      (id : String) (w : engine.World) (info : ContainerJson)
      → IsNamedBy msg id
      → (engine.answers w).container_inspect id ≡ ok info
      → is_monitored info ≡ true
      → IsDue engine msg

-- What is known of a reload that a run decides on.
data Verdict (engine : Engine) (msg : Message) : Outcome Bool → Type 0 where
  yes : IsDue engine msg → Verdict engine msg (ok true)
  no : Verdict engine msg (ok false)
  failed : (e : String) → Verdict engine msg (err e)
  panicked : Verdict engine msg panic

module _ (engine : Engine) (msg : Message) where
  -- A run that only pauses, and its decision.
  abbrev Judged : ℕ → Outcome Bool × State engine.World → List Effect → Type 0
  Judged rounds r before = Waits rounds r before × Verdict engine msg r.0

  Judged-exposed :
      (id : String) (s : State engine.World)
      → IsNamedBy msg id
      → Judged 0 (is_exposed_container engine id s) s.asked
  unfolding is_exposed_container exposed_answer
  Judged-exposed id s named = elim (Outcome-cases ((engine.answers s.world).container_inspect id)) [
    | inl (info, found) ↦ elim (Bool-cases (is_monitored info)) [
      | inl holds ↦
          rw (found, holds)
            (Waits-none 0 (ok true) s, yes (monitored id s.world info named found holds))
      | inr fails ↦ rw (found, fails) (Waits-none 0 (ok false) s, no)
    ]
    | inr (inl (e, found)) ↦ rw found (Waits-none 0 (ok false) s, no)
    | inr (inr found) ↦ rw found (Waits-none 0 panic s, panicked)
  ]

  Waits-wait_connected :
      (rounds : ℕ) (id net : String) (s : State engine.World)
      → Waits rounds (wait_connected engine rounds id net s) s.asked
  unfolding wait_connected is_container_connected ask
  Waits-wait_connected zero id net s = Waits-none 0 (ok tt) s
  Waits-wait_connected (suc rounds) id net s =
      elim (Outcome-cases ((engine.answers s.world).network_inspect net)) [
        | inl (network, found) ↦ elim (Bool-cases (has_key id network.containers)) [
          | inl holds ↦ rw (found, holds) (Waits-none (suc rounds) (ok tt) s)
          | inr fails ↦
              rw (found, fails)
                (Waits-weaken (omega arith) (
                  Waits-after (500 ∷ []) refl
                    (Waits-wait_connected rounds id net (ask engine (sleep 500) s).1)))
        ]
        | inr (inl (e, found)) ↦ rw found (Waits-none (suc rounds) (err e) s)
        | inr (inr found) ↦ rw found (Waits-none (suc rounds) panic s)
      ]

  Judged-after :
      {A : Type 0} (r : Outcome A × State engine.World) (f : A → Run engine.World Bool) {n : ℕ}
      (k : ℕ) {before : List Effect}
      → Waits n r before
      → ((a : A) (s : State engine.World) → r.0 ≡ ok a → Judged k (f a s) s.asked)
      → Judged (n + k) (and_then r f) before
  Judged-after (ok a, s) f k w next =
      let (later, verdict) = next a s refl in
      (Waits-weaken (omega (arith, w.bounded)) (Waits-after w.pauses w.asked later), verdict)
  Judged-after (err e, s) f k w next = (Waits-failed (err e) (err e) s k w, failed e)
  Judged-after (panic, s) f k w next = (Waits-failed panic panic s k w, panicked)

  Judged-paused :
      (r : Outcome Bool × State engine.World) (n : ℕ) (before : List Effect)
      → Judged n r before
      → Judged (n + 1) (and_then r (λ reload s. (ok reload, (ask engine (sleep 250) s).1))) before
  unfolding ask
  Judged-paused (ok b, s) n before (w, verdict) = (
    Waits-weaken (omega (arith, w.bounded))
        (Waits-after w.pauses w.asked (Waits-after (250 ∷ []) refl (Waits-none 0 (ok b) _))),
    verdict,
  )
  Judged-paused (err e, s) n before (w, verdict) = (Waits-failed (err e) (err e) s 1 w, verdict)
  Judged-paused (panic, s) n before (w, verdict) = (Waits-failed panic panic s 1 w, verdict)

  Judged-status : (s : State engine.World) → Judged 1 (status_reload engine msg s) s.asked
  unfolding status_reload ask
  Judged-status s = elim (Bool-cases (msg.status == "start")) [
    | inl start ↦
        rw (start, status_reload)
          (let (w, v) = Judged-exposed msg.id s (inl refl) in (Waits-weaken (omega arith) w, v))
    | inr other ↦ elim (Bool-cases (msg.status == "stop")) [
      | inl stop ↦
          rw (other, stop, status_reload)
            (Judged-paused (is_exposed_container engine msg.id s) 0 s.asked
              (Judged-exposed msg.id s (inl refl)))
      | inr neither ↦
          rw (other, neither, status_reload)
            (elim (Bool-cases (is_forced msg.status)) [
              | inl holds ↦ rw holds (Waits-none 1 (ok true) s, yes (forced holds))
              | inr fails ↦ rw fails (Waits-none 1 (ok false) s, no)
            ])
    ]
  ]

  Judged-action :
      (reload : Bool) (s : State engine.World)
      → Verdict engine msg (ok reload)
      → Judged 5 (action_reload engine msg reload s) s.asked
  unfolding action_reload attribute
  Judged-action reload s verdict = elim (Bool-cases (is_network_action msg.action)) [
    | inr other ↦ rw (other, action_reload) (Waits-none 5 (ok reload) s, verdict)
    | inl network ↦
        rw (network, action_reload)
          (elim (Option-cases (lookup "container" msg.attributes)) [
            | inl gone ↦
                rw (gone, attribute)
                  (Waits-none 5 (err "unable to detect container id for network event") s, failed _)
            | inr (id, named) ↦ elim (Option-cases (lookup "name" msg.attributes)) [
              | inl gone ↦
                  rw (named, gone, attribute)
                    (
                      Waits-none 5 (err "unable to detect container network name for network event")
                          s,
                      failed _,
                    )
              | inr (net, found) ↦
                  rw (named, found, attribute)
                    (Judged-after (wait_connected engine 5 id net s)
                      (λ _. is_exposed_container engine id) 0 (Waits-wait_connected 5 id net s)
                      (λ _ s' _. Judged-exposed id s' (inr named)))
            ]
          ])
  ]

  -- The pauses of a run, and what it asks for at the end with its reason.
  abbrev Ends : {A : Type 0} → ℕ → Outcome A × State engine.World → List Effect → Type 0
  Ends rounds r before =
      (pauses : List ℕ) × (length pauses ≤ rounds)
      × ((r.1.asked ≡ before ++ map sleep pauses)
          ⊎ (IsDue engine msg
              × (r.1.asked ≡ before ++ (map sleep pauses ++ cache_set "reload" ∷ []))))

  Ends-request :
      (r : Outcome Bool × State engine.World) (n : ℕ) (before : List Effect)
      → Judged n r before
      → Ends n (and_then r (request engine)) before
  unfolding request ask
  Ends-request (ok true, s) n before (w, yes due) = (
    w.pauses,
    w.bounded,
    inr (due, rw⁻¹ append_assoc (ap (λ l. l ++ cache_set "reload" ∷ []) w.asked)),
  )
  Ends-request (ok false, s) n before (w, no) = (w.pauses, w.bounded, inl w.asked)
  Ends-request (err e, s) n before (w, verdict) = (w.pauses, w.bounded, inl w.asked)
  Ends-request (panic, s) n before (w, verdict) = (w.pauses, w.bounded, inl w.asked)

  Ends-both :
      {A : Type 0} (r : Outcome A × State engine.World) (f : A → Run engine.World Bool) (n : ℕ)
      (before : List Effect)
      → Judged n (and_then r f) before
      → Ends n (and_then r (λ a s. and_then (f a s) (request engine))) before
  Ends-both (ok a, s) f n before judged = Ends-request (f a s) n before judged
  Ends-both (err e, s) f n before (w, verdict) = (w.pauses, w.bounded, inl w.asked)
  Ends-both (panic, s) f n before (w, verdict) = (w.pauses, w.bounded, inl w.asked)

-- An event makes HandleEvent pause six times at most. A reload is asked for at most once, after the
-- pauses, and only for a reason: the event's status forces it, or an inspection found a container that
-- the event names to be monitored.
pub handle_event-IsDue :
    (engine : Engine) (msg : Message) (s : State engine.World)
    → (pauses : List ℕ) × (length pauses ≤ 6)
      × (((handle_event engine msg s).1.asked ≡ s.asked ++ map sleep pauses)
          ⊎ (IsDue engine msg
              × ((handle_event engine msg s).1.asked
                  ≡ s.asked ++ (map sleep pauses ++ cache_set "reload" ∷ []))))
unfolding handle_event
handle_event-IsDue engine msg s =
    let (waits, verdict) = Judged-status engine msg s in
    Ends-both engine msg (status_reload engine msg s) (action_reload engine msg) 6 s.asked (
      Judged-after engine msg (status_reload engine msg s) (action_reload engine msg) 5 waits
        (λ reload s' found. Judged-action engine msg reload s' (rw (← found) verdict)))
