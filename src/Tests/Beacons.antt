-- ===== src/Tests/Beacons.antt =====
-- A beacon with two rules, the history of a container, and a statistic; the nodes of a Swarm.
use interlock_old.Prelude.{
  ◌≡◌, refl, ◌↔◌, inr, ℕ, String, Bool, true, List, [], ◌∷◌, ◌++◌, All, none, some, eqb,
  if◌then◌else◌,
}
use interlock_old.Go.Outcome.{Outcome, ok}
use interlock_old.Go.Text.{contains, split}
use interlock_old.Go.Maps.{Map, has_key}
use interlock_old.Config.{Rule}
use interlock_old.Beacon.{Beacon, rule_match}
use interlock_old.Beacon.Rules.{HasChoosingRule, rule_match_iff}
use interlock_old.Beacon.Monitoring.{Event, after, last_word, after-last_word}
use interlock_old.Beacon.Stats.{Stat, send_prometheus}
use interlock_old.Beacon.Stats.Reports.{IsLabelled, send_prometheus-IsLabelled}
use interlock_old.Beacon.Influx.{Client}
use interlock_old.Server.Swarm.{parse_swarm_nodes}
use interlock_old.Server.Swarm.Listing.{Entry, listing, node_of, parse_swarm_nodes-listing}
use interlock_old.Tests.Samples.{configured, listed}

abbrev pub match_contains : String → String → Outcome Bool
match_contains regex text = ok (contains text regex)

abbrev pub rules : Map Rule
rules =
    ("one", record { type = "name"; regex = "web" })
    ∷ ("two", record { type = "image"; regex = "pp" })
    ∷ []

rule_match_iff_example :
    (b : Bool) × (rule_match match_contains rules (configured []) ≡ ok b)
    × ((b ≡ true) ↔ HasChoosingRule match_contains (configured []) rules)
rule_match_iff_example =
    rule_match_iff match_contains (configured []) rules ((_, refl), ((_, refl), tt))

abbrev history : List Event
history =
    record { status = "die"; id = "a"; listing = [] }
    ∷ record { status = "start"; id = "b"; listing = [] }
    ∷ record { status = "interlock-start"; id = ""; listing = listed "a" ∷ [] }
    ∷ []

after-last_word_example :
    (b : Beacon ℕ) × (after (λ n. 0) history (record { monitored = []; counters = 7 }) ≡ ok b)
    × ((k : String) → has_key k b.monitored ≡ last_word k history)
after-last_word_example = after-last_word (λ n. 0) history 7

abbrev entry : Entry
entry = record {
  name = "node-1";
  addr = "10.0.0.5:2375";
  containers = "3";
  reserved_cpus = "0 / 1";
  reserved_memory = "0 B / 1 GiB";
  labels = "a=b,c=d";
}

parsed_labels : (node_of entry).labels ≡ "a=b" ∷ "c=d" ∷ []
unfolding split
parsed_labels = refl

parse_swarm_nodes-listing_example :
    parse_swarm_nodes ((("Nodes", "2") ∷ []) ++ listing (entry ∷ entry ∷ []))
    ≡ node_of entry ∷ node_of entry ∷ []
unfolding contains
parse_swarm_nodes-listing_example =
    parse_swarm_nodes-listing (("Nodes", "2") ∷ []) (entry ∷ entry ∷ [])
      (inr (record { no_field = refl; no_cluster = refl }), tt)
      (
        record { no_field = refl; no_cluster = refl },
        (record { no_field = refl; no_cluster = refl }, tt),
      )

abbrev stat : Stat String
stat = record {
  id = "aaaaaaaaaaaa";
  name = "web";
  image = "app";
  num_containers = 4;
  num_images = 9;
  num_volumes = 0;
  num_networks = 2;
  cpu_total_usage = 1000;
  mem_usage = 64;
  mem_max_usage = 128;
  mem_usage_percent = "50.0";
  networks =
      (
        "blue",
        record {
          rx_bytes = 10;
          rx_packets = 1;
          rx_errors = 0;
          rx_dropped = 0;
          tx_bytes = 20;
          tx_packets = 2;
          tx_errors = 0;
          tx_dropped = 0;
        },
      )
      ∷ [];
}

-- A server that refuses every batch after the first.
abbrev pub once : Client String
once = record {
  new_client = none;
  new_batch_points = none;
  new_point = λ p. none;
  write = λ before batch. elim before [ [] ↦ none | b ∷ bs ↦ some "timeout" ];
}

-- A server that takes every batch.
abbrev accepting : Client String
accepting = record once { write = λ before batch. none }

abbrev pub float : ℕ → String
float n = if eqb n 0 then "0" else "1"

send_prometheus-IsLabelled_example : All IsLabelled (send_prometheus float stat)
send_prometheus-IsLabelled_example = send_prometheus-IsLabelled float stat
