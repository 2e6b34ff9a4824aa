-- ===== src/Server/Dispatch.antt =====
-- The event loop of NewServer and the recovery from errors, in server/server.go.
pub mod Notified
pub mod Recovered
use interlock_old.Prelude.{
  ℕ, zero, suc, ◌+◌, String, Bool, true, false, ◌&&◌, ◌++◌, List, [], ◌∷◌, ◌==◌,
}
use interlock_old.Go.Outcome.{Outcome, ok, err, panic}
use interlock_old.Go.Text.{contains}
use interlock_old.Platform.{Message, Container}
use interlock_old.Engine.{Engine, sleep, Run, ◌>>=◌, give, attempt, reading, ask}

-- Extension.HandleEvent of an extension
abbrev pub Handler : Type 0 → Type 0
Handler W = Message → Run W (Unit {0})

unfoldable pub is_blank : Message → Bool
is_blank e = e.id == "" && e.type == ""

-- The error that goes to errChan, if there is one.
unfoldable pub reported : Outcome (Unit {0}) → List String
reported (ok u) = []
reported (err e) = e ∷ []
reported panic = []

-- The loop over the extensions, with the errors that it reports.
unfoldable pub notify_all : {W : Type 0} → List (Handler W) → Message → Run W (List String)
unfolding reported
notify_all [] e = give []
notify_all (handle ∷ handlers) e = do
  r ← attempt (handle e)
  errors ← notify_all handlers e
  give (reported r ++ errors)

-- What the loop over eventChan has done: the errors it reported and the value of EventsProcessed.
pub record Progress : Type 0 where
  pub errors : List String
  pub processed : ℕ

unfoldable pub event_loop :
    {W : Type 0} → List (Handler W) → List Message → Progress → Run W Progress
unfolding notify_all is_blank
event_loop handlers [] p = give p
event_loop handlers (e ∷ es) p = elim (is_blank e) [
  | true ↦ event_loop handlers es p
  | false ↦ do
    errors ← notify_all handlers e
    event_loop handlers es (record { errors = p.errors ++ errors; processed = p.processed + 1 })
]

-- How a wait ends: the engine answered, or the rounds ran out.
pub data Waited : Type 0 where
  recovered : Waited
  unready : Waited

module _ (engine : Engine) where
  -- waitForSwarm, for at most `rounds` rounds
  unfoldable pub wait_for_swarm : ℕ → Run engine.World Waited
  unfolding ask
  wait_for_swarm zero = give unready
  wait_for_swarm (suc rounds) = do
    listed ← attempt (reading engine.container_list)
    elim listed [
      | ok cs ↦ give recovered
      | err e ↦ do _ ← ask engine (sleep 1000); wait_for_swarm rounds
      | panic ↦ give unready
    ]

  -- The handler of errChan: whether it asks for a restart of the event stream.
  unfoldable pub handle_error : ℕ → String → Run engine.World Bool
  unfolding wait_for_swarm contains
  handle_error rounds e = elim (contains e "500 Internal Server Error") [
    | true ↦ do w ← wait_for_swarm rounds; give true
    | false ↦ give false
  ]
