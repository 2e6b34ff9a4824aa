-- ===== src/Beacon/Stats.antt =====
-- ext/beacon/stats.go: what is sent to InfluxDB and what is set in Prometheus. A percentage, which is
-- a float64, is of a type that is a parameter.
pub mod Reports
use interlock_old.Prelude.{ℕ, String, List, [], ◌∷◌, ◌++◌, Option, none, some}
use interlock_old.Go.Outcome.{Outcome, ok, err, ◌>>=◌}
use interlock_old.Go.Maps.{Map}
use interlock_old.Beacon.Counters.{
  GaugeVec, counter_total_containers, counter_total_images, counter_total_volumes,
  counter_total_networks, counter_cpu_total_usage, counter_memory_usage, counter_memory_max_usage,
  counter_memory_percent, counter_network_rx_bytes, counter_network_rx_packets,
  counter_network_rx_errors, counter_network_rx_dropped, counter_network_tx_bytes,
  counter_network_tx_packets, counter_network_tx_errors, counter_network_tx_dropped,
}

-- types.NetworkStats
pub record NetworkStats : Type 0 where
  pub rx_bytes : ℕ
  pub rx_packets : ℕ
  pub rx_errors : ℕ
  pub rx_dropped : ℕ
  pub tx_bytes : ℕ
  pub tx_packets : ℕ
  pub tx_errors : ℕ
  pub tx_dropped : ℕ

-- Stat, with what is read of its statistics
pub record Stat (F : Type 0) : Type 0 where
  pub id : String
  pub name : String
  pub image : String
  pub num_containers : ℕ
  pub num_images : ℕ
  pub num_volumes : ℕ
  pub num_networks : ℕ
  pub cpu_total_usage : ℕ
  pub mem_usage : ℕ
  pub mem_max_usage : ℕ
  pub mem_usage_percent : F
  pub networks : Map NetworkStats

pub data Value (F : Type 0) : Type 0 where
  count : ℕ → Value F
  percent : F → Value F

-- A point of InfluxDB has one field.
pub record Point (F : Type 0) : Type 0 where
  pub measurement : String
  pub tags : Map String
  pub field : String
  pub value : Value F

-- A gauge that is set, to a float64: With the labels, then Set.
pub record Gauge (F : Type 0) : Type 0 where
  pub vec : GaugeVec
  pub labels : Map String
  pub value : F

module _ {F : Type 0} where
  unfoldable pub total_point : String → String → ℕ → Point F
  total_point measurement field n = record {
    measurement = measurement;
    tags = ("type", "totals") ∷ [];
    field = field;
    value = count n;
  }

  unfoldable pub container_point : String → String → String → Stat F → Value F → Point F
  container_point measurement tag tag_value stat value = record {
    measurement = measurement;
    tags =
        (tag, tag_value)
        ∷ ("resource", "container")
        ∷ ("container", stat.id)
        ∷ ("image", stat.image)
        ∷ ("name", stat.name)
        ∷ [];
    field = "value";
    value = value;
  }

  unfoldable pub network_point : String → String → Stat F → ℕ → Point F
  network_point measurement net stat n = record {
    measurement = measurement;
    tags =
        ("resource", "network")
        ∷ ("container", stat.id)
        ∷ ("network", net)
        ∷ ("image", stat.image)
        ∷ ("name", stat.name)
        ∷ [];
    field = "value";
    value = count n;
  }

  unfoldable pub first_point : Stat F → Point F
  unfolding total_point
  first_point stat = total_point "containers" "total_containers" stat.num_containers

  unfoldable pub network_points : Stat F → Map NetworkStats → List (Point F)
  unfolding network_point
  network_points stat [] = []
  network_points stat ((net, n) ∷ networks) =
      network_point "net_rx_bytes" net stat n.rx_bytes
      ∷ network_point "net_rx_packets" net stat n.rx_packets
      ∷ network_point "net_rx_errors" net stat n.rx_errors
      ∷ network_point "net_rx_dropped" net stat n.rx_dropped
      ∷ network_point "net_tx_bytes" net stat n.tx_bytes
      ∷ network_point "net_tx_packets" net stat n.tx_packets
      ∷ network_point "net_tx_errors" net stat n.tx_errors
      ∷ network_point "net_tx_dropped" net stat n.tx_dropped
      ∷ network_points stat networks

  -- The points that follow the first write.
  unfoldable pub later_points : Stat F → List (Point F)
  unfolding total_point container_point network_points
  later_points stat =
      total_point "images" "total_images" stat.num_images
      ∷ total_point "networks" "total_networks" stat.num_networks
      ∷ total_point "volumes" "total_volumes" stat.num_volumes
      ∷ container_point "cpu_usage" "cpu" "cpu-total" stat (count stat.cpu_total_usage)
      ∷ container_point "mem_usage" "memory" "memory-usage" stat (count stat.mem_usage)
      ∷ container_point "mem_max_usage" "memory" "memory-max-usage" stat (count stat.mem_max_usage)
      ∷ container_point "mem_usage_percent" "memory" "memory-usage-percent" stat
          (percent stat.mem_usage_percent)
      ∷ network_points stat stat.networks

-- `float` is the conversion float64(n) of an integer.
module _ {F : Type 0} (float : ℕ → F) where
  unfoldable pub gauge : GaugeVec → String → Stat F → F → Gauge F
  gauge vec type stat value = record {
    vec = vec;
    labels =
        ("container", stat.id) ∷ ("image", stat.image) ∷ ("name", stat.name) ∷ ("type", type) ∷ [];
    value = value;
  }

  unfoldable pub total_gauge : GaugeVec → ℕ → Gauge F
  total_gauge vec n = record { vec = vec; labels = ("type", "totals") ∷ []; value = float n }

  unfoldable pub network_gauge : GaugeVec → String → Stat F → ℕ → Gauge F
  network_gauge vec net stat n = record {
    vec = vec;
    labels =
        ("container", stat.id)
        ∷ ("image", stat.image)
        ∷ ("name", stat.name)
        ∷ ("network", net)
        ∷ ("type", "network")
        ∷ [];
    value = float n;
  }

  unfoldable pub network_gauges : Stat F → Map NetworkStats → List (Gauge F)
  unfolding network_gauge
  network_gauges stat [] = []
  network_gauges stat ((net, n) ∷ networks) =
      network_gauge counter_network_rx_bytes net stat n.rx_bytes
      ∷ network_gauge counter_network_rx_packets net stat n.rx_packets
      ∷ network_gauge counter_network_rx_errors net stat n.rx_errors
      ∷ network_gauge counter_network_rx_dropped net stat n.rx_dropped
      ∷ network_gauge counter_network_tx_bytes net stat n.tx_bytes
      ∷ network_gauge counter_network_tx_packets net stat n.tx_packets
      ∷ network_gauge counter_network_tx_errors net stat n.tx_errors
      ∷ network_gauge counter_network_tx_dropped net stat n.tx_dropped
      ∷ network_gauges stat networks

  -- sendPrometheus: the gauges that it sets, in order
  unfoldable pub send_prometheus : Stat F → List (Gauge F)
  unfolding total_gauge gauge network_gauges
  send_prometheus stat =
      total_gauge counter_total_containers stat.num_containers
      ∷ total_gauge counter_total_images stat.num_images
      ∷ total_gauge counter_total_networks stat.num_networks
      ∷ total_gauge counter_total_volumes stat.num_volumes
      ∷ gauge counter_cpu_total_usage "cpu" stat (float stat.cpu_total_usage)
      ∷ gauge counter_memory_usage "memory" stat (float stat.mem_usage)
      ∷ gauge counter_memory_max_usage "memory" stat (float stat.mem_max_usage)
      ∷ gauge counter_memory_percent "memory" stat stat.mem_usage_percent
      ∷ network_gauges stat stat.networks
