-- ===== src/Engine.antt =====
-- The effects that the program has on what runs beside it: the Docker engine, the cache of the package
-- ttlcache, the command iptables, and time. What others do shows where the world changes: at a call
-- that has an effect, at a pause, and while a configuration is generated. Any other call that only reads
-- answers from the world as it is.
pub mod Effects
use interlock_old.Prelude.{ℕ, String, Bool, List, [], ◌∷◌, ◌++◌, Option, none, some}
use interlock_old.Prelude.Int.{ℤ}
use interlock_old.Go.Outcome.{Outcome, ok, err, panic}
use interlock_old.Platform.{Platform, Container}

-- An argument of a command: a text, or a number as fmt.Sprintf("%d") prints it.
pub data Argument : Type 0 where
  text : String → Argument
  number : ℤ → Argument

pub data Effect : Type 0 where
  network_connect : String → String → Effect  -- the network, the container
  network_disconnect : String → String → Effect  -- the network, the container
  copy_to_container : String → String → String → String → Effect  -- container, directory, file, text
  container_kill : String → String → Effect  -- the container, the signal
  container_restart : String → ℕ → Effect  -- the container, the milliseconds to wait
  command : String → List Argument → Effect  -- the program's path, its arguments
  sleep : ℕ → Effect  -- in milliseconds
  cache_set : String → Effect  -- cache.Set(key, true)

pub record Engine : Type 1 where
  pub World : Type 0
  pub answers : World → Platform
  pub container_list : World → Outcome (List Container)  -- with All set
  pub look_path : String → World → Option String  -- exec.LookPath, `none` when it is not found
  pub cache_has : String → World → Bool  -- cache.Get(key) != nil
  pub passes : World → World  -- what others do meanwhile
  pub perform : Effect → World → Option String × World  -- the error, if there is one

-- The world, and the effects asked of it so far.
pub record State (W : Type 0) : Type 0 where
  pub world : W
  pub asked : List Effect

abbrev pub Run : Type 0 → Type 0 → Type 0
Run W A = State W → Outcome A × State W

-- What follows a call: it goes on with the value, or leaves with the error.
abbrev pub and_then : {W A B : Type 0} → Outcome A × State W → (A → Run W B) → Outcome B × State W
and_then (ok a, s) f = f a s
and_then (err e, s) f = (err e, s)
and_then (panic, s) f = (panic, s)

infixl 5 ◌>>=◌
abbrev pub ◌>>=◌ : {W A B : Type 0} → Run W A → (A → Run W B) → Run W B
(m >>= f) s = and_then (m s) f

abbrev pub give : {W A : Type 0} → A → Run W A
give a s = (ok a, s)

abbrev pub lift : {W A : Type 0} → Outcome A → Run W A
lift m s = (m, s)

-- `if err != nil` in the caller: an error is a value, a panic goes on.
abbrev pub caught : {W A : Type 0} → Outcome A × State W → Outcome (Outcome A) × State W
caught (ok a, s) = (ok (ok a), s)
caught (err e, s) = (ok (err e), s)
caught (panic, s) = (panic, s)

abbrev pub attempt : {W A : Type 0} → Run W A → Run W (Outcome A)
attempt m s = caught (m s)

-- A read of the world as it is.
abbrev pub reading : {W A : Type 0} → (W → Outcome A) → Run W A
reading f s = (f s.world, s)

-- A call with an effect, and its error if there is one.
unfoldable pub ask : (engine : Engine) → Effect → Run engine.World (Option String)
ask engine effect s =
    let r = engine.perform effect s.world in
    (ok r.0, record { world = r.1; asked = s.asked ++ effect ∷ [] })

-- Time passes in which others change the world.
unfoldable pub meanwhile : (engine : Engine) → Run engine.World (Unit {0})
meanwhile engine s = (ok tt, record s { world = engine.passes s.world })

-- The call where its error ends the caller.
abbrev pub fail_on : {W : Type 0} → Option String → Run W (Unit {0})
fail_on none = give tt
fail_on (some e) = lift (err e)
