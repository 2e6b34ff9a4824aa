-- ===== src/Tests/Collections.antt =====
-- A collection of the statistics of a host.
use interlock_old.Prelude.{
  ◌≡◌, ◌≢◌, refl, inl, ◌==◌, ◌||◌, if◌then◌else◌, ℕ, String, List, [], ◌∷◌, All, some,
}
use interlock_old.Go.Outcome.{ok, err}
use interlock_old.Go.Maps.{Map}
use interlock_old.Platform.{ContainerConfig}
use interlock_old.Beacon.Rules.{IsCompiled}
use interlock_old.Beacon.Collect.{StatsJson, Source, Report, short_id, collect_stats}
use interlock_old.Beacon.Collect.Complete.{IsAnswered, IsHealthy, Reports, collect_stats-Reports}
use interlock_old.Tests.Samples.{containers, first_info}
use interlock_old.Tests.Beacons.{match_contains, rules, once, float}

abbrev stats : StatsJson
stats = record {
  total_usage = 1000;
  mem_usage = 64;
  mem_limit = 256;
  mem_max_usage = 128;
  networks = [];
}

abbrev source : Source
source = record {
  container_list = ok containers;
  container_inspect = λ id.
      if id == "aaaaaaaaaaaaaaaa" || id == "aaaaaaaaaaaa"
      then ok first_info
      else err "no such container";
  image_list = ok ("app" ∷ []);
  volume_list = ok [];
  network_list = ok ("bridge" ∷ []);
  container_stats =
      λ id. if id == "aaaaaaaaaaaaaaaa" then ok ("{}" ∷ []) else err "no such container";
  unmarshal = λ previous line. ok (some stats);
}

abbrev percent_of : ℕ → ℕ → String
percent_of usage limit = "25.0"

compiled : (cfg : ContainerConfig) → All (λ e. IsCompiled match_contains cfg e.1) rules
compiled cfg = ((_, refl), ((_, refl), tt))

named : first_info.name ≢ ""
named e = cc e

source-IsHealthy : IsHealthy source
source-IsHealthy = record {
  containers = containers;
  images = "app" ∷ [];
  volumes = [];
  networks = "bridge" ∷ [];
  container_list = refl;
  image_list = refl;
  volume_list = refl;
  network_list = refl;
}

abbrev monitored : Map ℕ
monitored = ("aaaaaaaaaaaaaaaa", 1) ∷ []

answered : All (λ e. IsAnswered source e.0) monitored
unfolding short_id
answered = (
  record {
    info = first_info;
    inspected = refl;
    short = "aaaaaaaaaaaa";
    shortened = refl;
    short_info = first_info;
    short_inspected = refl;
    named = named;
    line = "{}";
    stats = stats;
    sampled = refl;
    decoded = refl;
  },
  tt,
)

collect_stats-Reports_example :
    (rs : List (Report String)) × (collect_stats percent_of float once "prometheus" source
        match_contains rules monitored
      ≡ ok (record { errors = []; reports = rs }))
    × Reports percent_of float once "prometheus" source match_contains rules monitored rs
collect_stats-Reports_example =
    collect_stats-Reports percent_of float once "prometheus" source match_contains rules (inl refl)
      source-IsHealthy monitored answered compiled
