-- ===== src/Tests/Servers.antt =====
-- The server: polling, dispatch of events, and the loading of extensions.
use interlock_old.Prelude.{
  ◌≡◌, ◌≢◌, refl, ◌≤◌, ◌↔◌, ◌⊎◌, arith, ℕ, ◌+◌, String, ◌<>◌, true, false, List, [], ◌∷◌, ◌++◌,
  none, eqb, if◌then◌else◌,
}
use interlock_old.Prelude.Int.{ℤ, pos}
use interlock_old.Go.Outcome.{ok, err}
use interlock_old.Engine.{Engine, sleep, cache_set, State, give, ask, ◌>>=◌}
use interlock_old.Server.Poller.{sum_of, poll, poll_interval, started_with, default_poll_interval}
use interlock_old.Server.Poller.Changed.{IsSameHost, IsShort, poll_iff, poll_interval-bounds}
use interlock_old.Server.Dispatch.{Handler, event_loop, wait_for_swarm, recovered}
use interlock_old.Server.Dispatch.Notified.{Served, event_loop-Served}
use interlock_old.Server.Dispatch.Recovered.{now, later, pauses, wait_for_swarm-Recovers}
use interlock_old.Server.Extensions.{
  Host, load_balancer, beacon, with_base_path, load_extensions, load_all,
}
use interlock_old.Server.Extensions.Loaded.{StandFor, load_extensions-StandFor}
use interlock_old.Tests.Samples.{containers, extension}
use interlock_old.Tests.Rounds.{host, begin, started}
use interlock_old.Tests.Configs.{raw}

-- A digest that tells these two hosts from one another.
abbrev digest : List String → List ℕ → String
digest [] ports = "none"
digest (id ∷ ids) ports = id <> digest ids ports

poll_iff_example :
    (poll digest "1" (ok containers) (sum_of digest containers)
      ≡ ok (none, sum_of digest containers))
    ↔ IsSameHost containers containers
poll_iff_example = poll_iff digest "1" containers containers (λ e. (refl, refl))

abbrev text_of : String → String
text_of s = s

poll_interval-bounds_example :
    (text_of "5s" ≢ "")
    × (default_poll_interval ≤ 5000000000)
    × ((set : ℤ) × (ok (pos 5000000000) ≡ ok set)
        × (((set ≡ pos 5000000000) × (text_of "5s" ≡ text_of "5s"))
            ⊎ ((5000000000 ≡ default_poll_interval) × IsShort set × (text_of "5s" ≡ "2s"))))
unfolding poll_interval started_with
poll_interval-bounds_example =
    poll_interval-bounds (λ text. ok (pos 5000000000)) "5s" "5s" 5000000000 refl

abbrev obedient : Handler (Unit {0})
obedient e = do _ ← ask host (cache_set e.id); give tt

abbrev refusing : Handler (Unit {0})
refusing e s = (err "no", s)

event_loop-Served_example :
    (errors : List String) × (n : ℕ) × (t : State (Unit {0})) × (event_loop
        (refusing ∷ obedient ∷ [])
        (started ∷ [])
        (record { errors = []; processed = 0 })
        begin
      ≡ (ok (record { errors = [] ++ errors; processed = 0 + n }), t))
    × Served (refusing ∷ obedient ∷ []) (started ∷ []) begin errors n t
unfolding ask
event_loop-Served_example =
    event_loop-Served (refusing ∷ obedient ∷ []) (started ∷ [])
      (record { errors = []; processed = 0 }) begin ((λ e s. tt), ((λ e s. tt), tt))

-- An engine that answers after two effects.
abbrev slow : Engine
slow = record host {
  World = ℕ;
  answers = λ w. host.answers tt;
  container_list = λ w. if eqb w 2 then ok containers else err "500 Internal Server Error";
  look_path = λ name w. none;
  cache_has = λ key w. false;
  passes = λ w. w;
  perform = λ effect w. (none, w + 1);
}

wait_for_swarm-Recovers_example :
    (wait_for_swarm slow 3 (record { world = 0; asked = [] })
      ≡ (ok recovered, record { world = 2; asked = sleep 1000 ∷ sleep 1000 ∷ [] }))
    × ((sleep 1000 ∷ sleep 1000 ∷ []) ≡ [] ++ pauses 2)
unfolding ask
wait_for_swarm-Recovers_example =
    wait_for_swarm-Recovers slow 3
      (later "500 Internal Server Error" refl
        (later "500 Internal Server Error" refl (now containers refl)))
      (omega arith)

abbrev node : Host
node = record {
  is_file = λ path. true;
  new_cache = ok tt;
  container_id = ok "self";
  parse_duration = λ text. ok (pos 1000);
}

load_extensions-StandFor_example : StandFor true raw.extensions (
    load_balancer "nginx" "self" (with_base_path (extension "nginx"))
    ∷ beacon "self" (with_base_path (extension "beacon"))
    ∷ [])
unfolding load_extensions load_all
load_extensions-StandFor_example = load_extensions-StandFor node raw _ refl
