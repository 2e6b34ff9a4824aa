-- ===== src/Beacon/Collect.antt =====
-- collectStats and sendContainerStats of ext/beacon/stats.go. The goroutines of collectStats, one for
-- each container, are run one after the other; the answers of the engine are those of one time.
pub mod Sound
pub mod Chosen
pub mod Complete
use Prim.Native.Char.{code}
use Prim.Native.String.{len, [], ◌∷◌}
use interlock_old.Prelude.{
  ℕ, String, Bool, true, false, List, [], ◌∷◌, ◌++◌, Option, none, some, length, leb, eqb, ◌==◌,
  if◌then◌else◌,
}
use interlock_old.Go.Outcome.{Outcome, ok, err, panic, ◌>>=◌}
use interlock_old.Go.Text.{slice_to}
use interlock_old.Go.Maps.{Map}
use interlock_old.Config.{Rule}
use interlock_old.Platform.{Container, ContainerJson}
use interlock_old.Beacon.{rule_match}
use interlock_old.Beacon.Stats.{NetworkStats, Stat, Gauge, send_prometheus}
use interlock_old.Beacon.Influx.{Client, Sent, send_influxdb}

-- types.StatsJSON
pub record StatsJson : Type 0 where
  pub total_usage : ℕ
  pub mem_usage : ℕ
  pub mem_limit : ℕ
  pub mem_max_usage : ℕ
  pub networks : Map NetworkStats

-- What the code asks of the engine's client, and the decoder: json.Unmarshal into `stats`, a nil pointer at
-- first, which a line "null" makes nil again. ContainerStats gives the lines of its answer.
pub record Source : Type 0 where
  pub container_list : Outcome (List Container)
  pub container_inspect : String → Outcome ContainerJson
  pub image_list : Outcome (List String)
  pub volume_list : Outcome (List String)
  pub network_list : Outcome (List String)
  pub container_stats : String → Outcome (List String)
  pub unmarshal : Option StatsJson → String → Outcome (Option StatsJson)

pub data Sink (F : Type 0) : Type 0 where
  gauges_set : List (Gauge F) → Sink F
  batches_sent : Sent F → Sink F

-- A statistic, and what was made of it.
pub record Report (F : Type 0) : Type 0 where
  pub stat : Stat F
  pub sink : Sink F

-- What a goroutine, or all of them, sent to errChan and reported.
pub record Collected (F : Type 0) : Type 0 where
  pub errors : List String
  pub reports : List (Report F)

-- id[:12] of a longer ID
unfoldable pub short_id : String → Outcome String
unfolding slice_to
short_id id = if leb 12 (len id) then slice_to 12 id else ok id

-- The name without a slash at its start; cName[0] panics at an empty name.
unfoldable pub strip_slash : String → Outcome String
strip_slash [] = panic
strip_slash (c ∷ name) = if eqb (code c) b'/' then ok name else ok (c ∷ name)

-- An error is logged, and the function returns.
unfoldable pub or_return : {A R : Type 0} → Outcome A → (A → Outcome (List R)) → Outcome (List R)
or_return (ok a) next = next a
or_return (err e) next = ok []
or_return panic next = panic

-- `stats` where the code reads its fields
unfoldable pub pointed : Option StatsJson → Outcome StatsJson
pointed none = panic
pointed (some stats) = ok stats

module _ {F : Type 0} (percent_of : ℕ → ℕ → F) (float : ℕ → F) (client : Client F)
    (backend : String) (source : Source) where
  -- `percent_of` is the quotient of the two in percent, in floats; `float` is float64(n).
  unfoldable pub stat_of : String → String → String → StatsJson → ℕ → ℕ → ℕ → ℕ → Stat F
  stat_of id name image stats containers images volumes networks = record {
    id = id;
    name = name;
    image = image;
    num_containers = containers;
    num_images = images;
    num_volumes = volumes;
    num_networks = networks;
    cpu_total_usage = stats.total_usage;
    mem_usage = stats.mem_usage;
    mem_max_usage = stats.mem_max_usage;
    mem_usage_percent = percent_of stats.mem_usage stats.mem_limit;
    networks = stats.networks;
  }

  -- The switch over StatsBackendType; an error of sendInfluxDB is logged.
  unfoldable pub report : Stat F → List (Report F)
  unfolding send_prometheus send_influxdb
  report stat =
      if backend == "prometheus"
      then record { stat = stat; sink = gauges_set (send_prometheus float stat) } ∷ []
      else if backend == "influxdb"
      then record { stat = stat; sink = batches_sent (send_influxdb client stat) } ∷ []
      else []

  -- What follows the inspection.
  unfoldable pub send_inspected :
      String → Option StatsJson → List Container → ContainerJson → Outcome (List (Report F))
  unfolding strip_slash or_return pointed stat_of report
  send_inspected id stats containers info = strip_slash info.name >>= (λ name.
      or_return source.image_list (λ images. or_return source.volume_list (λ volumes.
        or_return source.network_list (λ networks. pointed stats >>= (λ s. ok (
          report (
            stat_of id name info.config.image s (length containers) (length images) (length volumes)
              (length networks))))))))

  unfoldable pub send_container_stats : String → Option StatsJson → Outcome (List (Report F))
  unfolding short_id or_return send_inspected
  send_container_stats id stats = short_id id >>= (λ short.
      or_return source.container_list (λ containers.
        or_return (source.container_inspect short)
          (λ info. send_inspected short stats containers info)))

  -- The loop over the lines of the answer.
  unfoldable pub collect_lines : String → Option StatsJson → List String → Outcome (List (Report F))
  unfolding or_return send_container_stats
  collect_lines id stats [] = ok []
  collect_lines id stats (line ∷ lines) = or_return (source.unmarshal stats line) (λ stats.
      send_container_stats id stats
      >>= (λ first. collect_lines id stats lines >>= (λ later. ok (first ++ later))))

  unfoldable pub collect_matched : String → Bool → Outcome (List (Report F))
  unfolding or_return collect_lines
  collect_matched id false = ok []
  collect_matched id true =
      or_return (source.container_stats id) (λ lines. collect_lines id none lines)

  module _ (match_string : String → String → Outcome Bool) (rules : Map Rule) where
    unfoldable pub collect_inspected : String → Outcome ContainerJson → Outcome (Collected F)
    unfolding rule_match collect_matched
    collect_inspected id (err e) = ok (record { errors = e ∷ []; reports = [] })
    collect_inspected id panic = panic
    collect_inspected id (ok info) = do
      matched ← rule_match match_string rules info.config
      reports ← collect_matched id matched
      ok (record { errors = []; reports = reports })

    unfoldable pub collect_stats : Map ℕ → Outcome (Collected F)
    unfolding collect_inspected
    collect_stats [] = ok (record { errors = []; reports = [] })
    collect_stats ((id, value) ∷ monitored) = do
      first ← collect_inspected id (source.container_inspect id)
      later ← collect_stats monitored
      ok (record {
        errors = first.errors ++ later.errors;
        reports = first.reports ++ later.reports;
      })
