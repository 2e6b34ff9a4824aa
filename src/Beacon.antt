-- ===== src/Beacon.antt =====
-- ext/beacon/: the containers whose statistics are collected.
pub mod Rules
pub mod Counters
pub mod Stats
pub mod Database
pub mod Influx
pub mod Collect
pub mod Monitoring
use interlock_old.Prelude.{
  ℕ, String, Bool, true, false, List, [], ◌∷◌, Option, none, some, ◌||◌, ◌==◌, if◌then◌else◌,
}
use interlock_old.Go.Outcome.{Outcome, ok, err, panic, ◌>>=◌}
use interlock_old.Go.Maps.{Map, insert, delete}
use interlock_old.Config.{Rule}
use interlock_old.Platform.{Container, ContainerConfig}

-- The calls of isLabelMatch and isNameMatch only log.
unfoldable pub is_label_match : String → ContainerConfig → Bool
is_label_match regex cfg = false

unfoldable pub is_name_match : String → ContainerConfig → Bool
is_name_match regex cfg = false

module _ (match_string : String → String → Outcome Bool) where
  -- `match_string` is regexp.MustCompile, which panics at what is no expression, with MatchString.
  unfoldable pub is_image_match : String → ContainerConfig → Outcome Bool
  is_image_match regex cfg = match_string regex cfg.image

  -- The switch over the type of a rule.
  unfoldable pub match_of : Rule → ContainerConfig → Outcome Bool
  unfolding is_label_match is_name_match is_image_match
  match_of rule cfg =
      if rule.type == "label"
      then ok (is_label_match rule.regex cfg)
      else if rule.type == "name"
      then ok (is_name_match rule.regex cfg)
      else if rule.type == "image"
      then is_image_match rule.regex cfg
      else ok false

  -- The loop of ruleMatch. The `break` leaves the switch, so that the later rules are matched too.
  unfoldable pub match_from : Bool → Map Rule → ContainerConfig → Outcome Bool
  unfolding match_of
  match_from is_match [] cfg = ok is_match
  match_from is_match ((name, rule) ∷ rules) cfg = do
    m ← match_of rule cfg
    match_from (m || is_match) rules cfg

  unfoldable pub rule_match : Map Rule → ContainerConfig → Outcome Bool
  unfolding match_from
  rule_match rules cfg = match_from false rules cfg

-- The state that HandleEvent changes; `Counters` is what the client of Prometheus holds.
pub record Beacon (Counters : Type 0) : Type 0 where
  pub monitored : Map ℕ
  pub counters : Counters

-- The containers of the listing at the start.
unfoldable pub monitor_all : List Container → Map ℕ → Map ℕ
unfolding insert
monitor_all [] m = m
monitor_all (c ∷ cs) m = monitor_all cs (insert c.id 1 m)

unfoldable pub is_end : String → Bool
is_end status = status == "kill" || status == "die" || status == "stop" || status == "destroy"

module _ {Counters : Type 0} (reset : Counters → Counters) where
  -- resetStats, which resets every counter whatever the container
  unfoldable pub reset_stats : String → Beacon Counters → Beacon Counters
  reset_stats id b = record b { counters = reset b.counters }

  -- `listing` is the engine's answer to ContainerList, without All.
  unfoldable pub handle_event :
      String → String → Outcome (List Container) → Beacon Counters → Outcome (Beacon Counters)
  unfolding monitor_all is_end delete insert reset_stats
  handle_event status id listing b =
      if status == "interlock-start"
      then (do
        containers ← listing
        ok (record b { monitored = monitor_all containers b.monitored }))
      else if status == "start"
      then ok (record b { monitored = insert id 1 b.monitored })
      else if is_end status
      then ok (reset_stats id (record b { monitored = delete id b.monitored }))
      else ok b
