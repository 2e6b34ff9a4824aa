-- ===== src/Server/Dispatch/Notified.antt =====
-- Every extension is given every event.
use interlock_old.Prelude.{
  ◌≡◌, ◌≢◌, ◌⊎◌, ◌==◌, eq_iff, refl, ◌+◌, arith, ℕ, String, true, false, List, [], ◌∷◌, ◌++◌,
  Bool-cases, append-nil, append_assoc, inl, inr,
}
use interlock_old.Go.Outcome.{ok, err}
use interlock_old.Platform.{Message}
use interlock_old.Engine.{State, give}
use interlock_old.Engine.Effects.{IsCalm, Run-cases}
use interlock_old.Server.Dispatch.{Handler, is_blank, reported, notify_all, Progress, event_loop}

-- Each handler in turn has been given the event, in the state that the one before left, and the errors
-- are those that they returned, in order.
pub data Notified {W : Type 0} (e : Message)
    : List (Handler W) → State W → List String → State W → Type 0 where
  done : {s : State W} → Notified e [] s [] s
  handled :
      {handle : Handler W} {handlers : List (Handler W)} {s t u : State W} {errors : List String}
      → handle e s ≡ (ok tt, t)
      → Notified e handlers t errors u
      → Notified e (handle ∷ handlers) s errors u
  failed :
      {handle : Handler W} {handlers : List (Handler W)} {s t u : State W} {message : String}
      {errors : List String}
      → handle e s ≡ (err message, t)
      → Notified e handlers t errors u
      → Notified e (handle ∷ handlers) s (message ∷ errors) u

-- The same of a list of events; those without an ID and a type are passed over.
pub data Served {W : Type 0} (handlers : List (Handler W))
    : List Message → State W → List String → ℕ → State W → Type 0 where
  idle : {s : State W} → Served handlers [] s [] 0 s
  blank :
      {e : Message} {es : List Message} {s t : State W} {errors : List String} {n : ℕ}
      → e.id ≡ ""
      → e.type ≡ ""
      → Served handlers es s errors n t
      → Served handlers (e ∷ es) s errors n t
  served :
      {e : Message} {es : List Message} {s t u : State W} {errors later : List String} {n : ℕ}
      → (e.id ≢ "") ⊎ (e.type ≢ "")
      → Notified e handlers s errors t
      → Served handlers es t later n u
      → Served handlers (e ∷ es) s (errors ++ later) (n + 1) u

-- No handler panics.
abbrev pub AreCalm : {W : Type 0} → List (Handler W) → Type 0
AreCalm [] = Unit
AreCalm {W} (handle ∷ handlers) =
    ((e : Message) (s : State W) → IsCalm (handle e s).0) × AreCalm handlers

is_blank-cases :
    (e : Message)
    → ((is_blank e ≡ true) × (e.id ≡ "") × (e.type ≡ ""))
      ⊎ ((is_blank e ≡ false) × ((e.id ≢ "") ⊎ (e.type ≢ "")))
unfolding is_blank
is_blank-cases e = elim (Bool-cases (e.id == "")) [
  | inr named ↦ inr (rw (is_blank, named) refl, inl (λ p. cc (named, (eq_iff e.id "").1 p)))
  | inl unnamed ↦ elim (Bool-cases (e.type == "")) [
    | inr typed ↦
        inr (rw (is_blank, unnamed, typed) refl, inr (λ p. cc (typed, (eq_iff e.type "").1 p)))
    | inl untyped ↦ inl (
      rw (is_blank, unnamed, untyped) refl,
      (eq_iff e.id "").0 unnamed,
      (eq_iff e.type "").0 untyped,
    )
  ]
]

module _ {W : Type 0} where
  notify_all-Notified :
      (handlers : List (Handler W)) (e : Message) (s : State W)
      → AreCalm handlers
      → (errors : List String) × (t : State W) × (notify_all handlers e s ≡ (ok errors, t))
        × Notified e handlers s errors t
  unfolding notify_all reported
  notify_all-Notified [] e s calm = ([], s, refl, done)
  notify_all-Notified (handle ∷ handlers) e s (calm, others) = elim (Run-cases (handle e s)) [
    | inl (done_, t, ran) ↦
        let (errors, u, notified, each) = notify_all-Notified handlers e t others in
        (errors, u, rw (ran, notify_all, notified) refl, handled ran each)
    | inr (inl (message, t, ran)) ↦
        let (errors, u, notified, each) = notify_all-Notified handlers e t others in
        (message ∷ errors, u, rw (ran, notify_all, notified) refl, failed ran each)
    | inr (inr (t, ran)) ↦ absurd (rw ran at (calm e s))
  ]

  -- Where no extension panics, the loop over a list of events gives each event that has an ID or a type to
  -- every extension, in the state that the one before left, whatever errors they return; it reports
  -- these errors in order, and counts those events.
  pub event_loop-Served :
      (handlers : List (Handler W)) (events : List Message) (p : Progress) (s : State W)
      → AreCalm handlers
      → (errors : List String) × (n : ℕ) × (t : State W) × (event_loop handlers events p s
          ≡ (ok (record { errors = p.errors ++ errors; processed = p.processed + n }), t))
        × Served handlers events s errors n t
  unfolding event_loop
  event_loop-Served handlers [] p s calm =
      let z : p.processed + 0 ≡ p.processed = omega arith in
      let unchanged : give p s
          ≡ (ok (record { errors = p.errors ++ []; processed = p.processed + 0 }), s) =
        rw (append-nil p.errors, z) refl in
      ([], 0, s, unchanged, idle)
  event_loop-Served handlers (e ∷ es) p s calm = elim (is_blank-cases e) [
    | inl (empty, unnamed, untyped) ↦
        let (errors, n, t, ran, each) = event_loop-Served handlers es p s calm in
        (errors, n, t, rw (empty, event_loop) ran, blank unnamed untyped each)
    | inr (full, given) ↦
        let (errors, t, notified, now) = notify_all-Notified handlers e s calm in
        let next : Progress = record { errors = p.errors ++ errors; processed = p.processed + 1 } in
        let (later, n, u, ran, each) = event_loop-Served handlers es next t calm in
        let z : (p.processed + 1) + n ≡ p.processed + (n + 1) = omega arith in
        (
          errors ++ later,
          n + 1,
          u,
          rw (full, event_loop, notified) (rw (append_assoc p.errors errors later, z) at ran),
          served given now each,
        )
  ]
