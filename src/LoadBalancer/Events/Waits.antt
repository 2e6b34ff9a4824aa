-- ===== src/LoadBalancer/Events/Waits.antt =====
-- Runs that only pause, with a bound on how often.
use interlock_old.Prelude.{
  ◌≡◌, sym, ◌≤◌, ◌+◌, ℕ, arith, List, [], ◌++◌, map, map-append, length, length-append, append-nil,
  append_assoc,
}
use interlock_old.Go.Outcome.{Outcome}
use interlock_old.Engine.{Effect, sleep, State}
use interlock_old.LoadBalancer.Events.{}

-- The pauses that a run makes, at most `rounds`, and nothing else.
pub record Waits {W A : Type 0} (rounds : ℕ) (r : Outcome A × State W) (before : List Effect)
    : Type 0 where
  pub pauses : List ℕ
  pub asked : r.1.asked ≡ before ++ map sleep pauses
  pub bounded : length pauses ≤ rounds

pub Waits-none :
    {W A : Type 0} (rounds : ℕ) (m : Outcome A) (s : State W) → Waits rounds (m, s) s.asked
Waits-none rounds m s = record {
  pauses = [];
  asked = sym (append-nil s.asked);
  bounded = omega arith;
}

pub Waits-after :
    {W A : Type 0} {r : Outcome A × State W} {rounds : ℕ} {before middle : List Effect}
    (pauses : List ℕ)
    → middle ≡ before ++ map sleep pauses
    → Waits rounds r middle
    → Waits (length pauses + rounds) r before
Waits-after ps h w = record {
  pauses = ps ++ w.pauses;
  asked = rw (map-append sleep ps w.pauses) (rw⁻¹ (append_assoc, h) w.asked);
  bounded = omega (arith, length-append ps w.pauses, w.bounded);
}

pub Waits-weaken :
    {W A : Type 0} {r : Outcome A × State W} {few rounds : ℕ} {before : List Effect}
    → few ≤ rounds
    → Waits few r before
    → Waits rounds r before
Waits-weaken few w = record {
  pauses = w.pauses;
  asked = w.asked;
  bounded = omega (arith, w.bounded, few);
}

pub Waits-failed :
    {W A B : Type 0} (m : Outcome A) (o : Outcome B) (s : State W) {n : ℕ} (k : ℕ)
    {before : List Effect}
    → Waits n (m, s) before
    → Waits (n + k) (o, s) before
Waits-failed m o s k w = record {
  pauses = w.pauses;
  asked = w.asked;
  bounded = omega (arith, w.bounded);
}
