-- ===== src/Server/Dispatch/Recovered.antt =====
-- The wait for the event stream ends when the engine answers.
use interlock_old.Prelude.{
  ◌≡◌, refl, sym, ◌<◌, arith, ℕ, zero, suc, String, List, [], ◌∷◌, ◌++◌, append-nil, append_assoc,
}
use interlock_old.Go.Outcome.{ok, err}
use interlock_old.Platform.{Container}
use interlock_old.Engine.{Engine, Effect, sleep, State, ask}
use interlock_old.Server.Dispatch.{wait_for_swarm, recovered}

-- The engine lists its containers after `n` pauses of a second, and not before.
pub data Recovers (engine : Engine) : State engine.World → ℕ → State engine.World → Type 0 where
  now :
      {s : State engine.World} (cs : List Container)
      → engine.container_list s.world ≡ ok cs
      → Recovers engine s zero s
  later :
      {s t : State engine.World} {n : ℕ} (e : String)
      → engine.container_list s.world ≡ err e
      → Recovers engine (ask engine (sleep 1000) s).1 n t
      → Recovers engine s (suc n) t

abbrev pub pauses : ℕ → List Effect
pauses zero = []
pauses (suc n) = sleep 1000 ∷ pauses n

-- waitForSwarm ends, given one round more than the pauses that the engine needs, in the state in
-- which the engine answers; it has asked for these pauses and nothing else.
pub wait_for_swarm-Recovers :
    (engine : Engine) (rounds : ℕ) {s t : State engine.World} {n : ℕ}
    → Recovers engine s n t
    → n < rounds
    → (wait_for_swarm engine rounds s ≡ (ok recovered, t)) × (t.asked ≡ s.asked ++ pauses n)
unfolding wait_for_swarm ask
wait_for_swarm-Recovers engine zero r enough = absurd (omega (arith, enough))
wait_for_swarm-Recovers engine (suc rounds) {s} (now cs listed) enough =
    (rw (listed, wait_for_swarm) refl, sym (append-nil s.asked))
wait_for_swarm-Recovers engine (suc rounds) {s} {t} (later {n = n} e listed r) enough =
    let (ends, asked) = wait_for_swarm-Recovers engine rounds r (omega (arith, enough)) in
    (
      rw (listed, wait_for_swarm) ends,
      rw (append_assoc s.asked (sleep 1000 ∷ []) (pauses n)) at asked,
    )
