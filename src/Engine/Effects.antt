-- ===== src/Engine/Effects.antt =====
-- Which effects a call asks for: those of its parts, in order.
use interlock_old.Prelude.{
  ◌≡◌, refl, sym, ap, ◌∙◌, String, List, [], ◌∷◌, ◌++◌, append-nil, append_assoc, Option, All,
  All-append, ◌⊎◌, inl, inr,
}
use interlock_old.Go.Outcome.{Outcome, ok, err, panic, ok-injective}
use interlock_old.Engine.{Engine, Effect, State, Run, and_then, caught, ask}

-- A run that returns a value asks for the effects in the list, after those asked before.
pub record Asks {W A : Type 0} (r : Outcome A × State W) (before effects : List Effect) (a : A)
    : Type 0 where
  pub value : r.0 ≡ ok a
  pub asked : r.1.asked ≡ before ++ effects

pub Asks-and_then :
    {W A B : Type 0} (r : Outcome A × State W) (f : A → Run W B) {before first later : List Effect}
    {a : A} {b : B}
    → Asks r before first a
    → Asks (f a r.1) r.1.asked later b
    → Asks (and_then r f) before (first ++ later) b
Asks-and_then (ok x, s) f {before} {first} {later} {a} {b} h k =
    let same = ok-injective h.value in
    record { value = rw (same) k.value; asked = rw (same) (rw⁻¹ (append_assoc, h.asked) k.asked) }
Asks-and_then (err e, s) f h k = cc (h.value)
Asks-and_then (panic, s) f h k = cc (h.value)

pub Asks-after :
    {W A : Type 0} {r : Outcome A × State W} {before middle : List Effect} (xs : List Effect)
    {later : List Effect} {a : A}
    → middle ≡ before ++ xs
    → Asks r middle later a
    → Asks r before (xs ++ later) a
Asks-after xs h asks = record { value = asks.value; asked = rw⁻¹ (append_assoc, h) asks.asked }

pub Asks-quiet : {W A : Type 0} (a : A) (s : State W) → Asks (ok a, s) s.asked [] a
Asks-quiet a s = record { value = refl; asked = sym (append-nil s.asked) }

pub Asks-value :
    {W A : Type 0} {m : Outcome A} (s : State W) {a : A} → m ≡ ok a → Asks (m, s) s.asked [] a
Asks-value s h = record { value = h; asked = sym (append-nil s.asked) }

pub Asks-end :
    {W A : Type 0} {r : Outcome A × State W} {before : List Effect} (xs : List Effect) {a : A}
    → Asks r before (xs ++ []) a
    → Asks r before xs a
Asks-end {before = before} xs h = record {
  value = h.value;
  asked = h.asked ∙ ap (λ l. before ++ l) (append-nil xs);
}

-- The run ended without a panic.
abbrev pub IsCalm : {A : Type 0} → Outcome A → Type 0
IsCalm (ok a) = Unit
IsCalm (err e) = Unit
IsCalm panic = ⊥

-- Every effect that a run asks for, whether it returns a value or an error, is one of `Allowed`.
pub record Does {W A : Type 0} (r : Outcome A × State W) (before : List Effect)
    (Allowed : Effect → Type 0) : Type 0 where
  pub effects : List Effect
  pub asked : r.1.asked ≡ before ++ effects
  pub allowed : All Allowed effects
  pub calm : IsCalm r.0

pub Does-after :
    {W A : Type 0} {r : Outcome A × State W} {before middle : List Effect}
    {Allowed : Effect → Type 0} (xs : List Effect)
    → middle ≡ before ++ xs
    → All Allowed xs
    → Does r middle Allowed
    → Does r before Allowed
Does-after {Allowed = Allowed} xs h each d = record {
  effects = xs ++ d.effects;
  asked = rw⁻¹ (append_assoc, h) d.asked;
  allowed = All-append Allowed xs d.effects each d.allowed;
  calm = d.calm;
}

pub Does-and_then :
    {W A B : Type 0} (r : Outcome A × State W) (f : A → Run W B) {before : List Effect}
    {Allowed : Effect → Type 0}
    → Does r before Allowed
    → ((a : A) (s : State W) → Does (f a s) s.asked Allowed)
    → Does (and_then r f) before Allowed
Does-and_then (ok x, s) f h k = Does-after h.effects h.asked h.allowed (k x s)
Does-and_then (err e, s) f h k = record {
  effects = h.effects;
  asked = h.asked;
  allowed = h.allowed;
  calm = tt;
}
Does-and_then (panic, s) f h k = absurd h.calm

-- A run that asks for nothing and ends without a panic.
pub Does-quiet :
    {W A : Type 0} (m : Outcome A) (s : State W) {Allowed : Effect → Type 0}
    → IsCalm m
    → Does (m, s) s.asked Allowed
Does-quiet m s calm = record {
  effects = [];
  asked = sym (append-nil s.asked);
  allowed = tt;
  calm = calm;
}

-- A run that ends with `o`, and asks for the effects in the list.
pub record Ends {W A : Type 0} (r : Outcome A × State W) (before effects : List Effect)
    (o : Outcome A) : Type 0 where
  pub result : r.0 ≡ o
  pub asked : r.1.asked ≡ before ++ effects

pub Ends-caught :
    {W A : Type 0} (r : Outcome A × State W) {before effects : List Effect} {o : Outcome A}
    → IsCalm o
    → Ends r before effects o
    → Asks (caught r) before effects o
Ends-caught (ok a, s) calm h = record { value = ap ok h.result; asked = h.asked }
Ends-caught (err e, s) calm h = record { value = ap ok h.result; asked = h.asked }
Ends-caught (panic, s) calm h = absurd (rw (← h.result) at calm)

pub Ends-and_then :
    {W A B : Type 0} (r : Outcome A × State W) (f : A → Run W B) {before first later : List Effect}
    {a : A} {o : Outcome B}
    → Ends r before first (ok a)
    → Ends (f a r.1) r.1.asked later o
    → Ends (and_then r f) before (first ++ later) o
Ends-and_then (ok x, s) f h k =
    let same = ok-injective h.result in
    record { result = rw same k.result; asked = rw same (rw⁻¹ (append_assoc, h.asked) k.asked) }
Ends-and_then (err e, s) f h k = cc (h.result)
Ends-and_then (panic, s) f h k = cc (h.result)

pub Ends-stopped :
    {W A B : Type 0} (r : Outcome A × State W) (f : A → Run W B) {before effects : List Effect}
    {e : String}
    → Ends r before effects (err e)
    → Ends (and_then r f) before effects (err e)
Ends-stopped (ok x, s) f h = cc (h.result)
Ends-stopped (err e, s) f h = record { result = cc (h.result); asked = h.asked }
Ends-stopped (panic, s) f h = cc (h.result)

pub Ends-ask :
    (engine : Engine) (effect : Effect) (s : State engine.World) {e : Option String}
    → (engine.perform effect s.world).0 ≡ e
    → Ends (ask engine effect s) s.asked (effect ∷ []) (ok e)
unfolding ask
Ends-ask engine effect s h = record { result = ap ok h; asked = refl }

pub Ends-quiet : {W A : Type 0} {m o : Outcome A} (s : State W) → m ≡ o → Ends (m, s) s.asked [] o
Ends-quiet s h = record { result = h; asked = sym (append-nil s.asked) }

-- How a run ended, and in which state.
pub Run-cases :
    {W A : Type 0} (r : Outcome A × State W)
    → ((a : A) × (t : State W) × (r ≡ (ok a, t)))
      ⊎ ((e : String) × (t : State W) × (r ≡ (err e, t)))
      ⊎ ((t : State W) × (r ≡ (panic, t)))
Run-cases (ok a, t) = inl (a, t, refl)
Run-cases (err e, t) = inr (inl (e, t, refl))
Run-cases (panic, t) = inr (inr (t, refl))
