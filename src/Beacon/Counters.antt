-- ===== src/Beacon/Counters.antt =====
-- ext/beacon/prometheus_metrics.go: the gauges of Prometheus, their labels, and the list that a reset goes
-- through.
use interlock_old.Prelude.{String, List, [], ◌∷◌}

-- What NewGaugeVec is given.
pub record GaugeVec : Type 0 where
  pub namespace : String
  pub subsystem : String
  pub name : String
  pub help : String
  pub label_names : List String

abbrev pub counter_total_containers : GaugeVec
counter_total_containers = record {
  namespace = "beacon";
  subsystem = "docker";
  name = "total_containers";
  help = "Total number of containers";
  label_names = "type" ∷ [];
}

abbrev pub counter_total_images : GaugeVec
counter_total_images = record {
  namespace = "beacon";
  subsystem = "docker";
  name = "total_images";
  help = "Total number of images";
  label_names = "type" ∷ [];
}

abbrev pub counter_total_volumes : GaugeVec
counter_total_volumes = record {
  namespace = "beacon";
  subsystem = "docker";
  name = "total_volumes";
  help = "Total number of volumes";
  label_names = "type" ∷ [];
}

abbrev pub counter_total_networks : GaugeVec
counter_total_networks = record {
  namespace = "beacon";
  subsystem = "docker";
  name = "total_networks";
  help = "Total number of networks";
  label_names = "type" ∷ [];
}

abbrev pub counter_cpu_total_usage : GaugeVec
counter_cpu_total_usage = record {
  namespace = "beacon";
  subsystem = "docker";
  name = "cpu_total_time_nanoseconds";
  help = "Total CPU time used in nanoseconds";
  label_names = "container" ∷ "image" ∷ "name" ∷ "type" ∷ [];
}

abbrev pub counter_memory_usage : GaugeVec
counter_memory_usage = record {
  namespace = "beacon";
  subsystem = "docker";
  name = "memory_usage_bytes";
  help = "Memory used in bytes";
  label_names = "container" ∷ "image" ∷ "name" ∷ "type" ∷ [];
}

abbrev pub counter_memory_max_usage : GaugeVec
counter_memory_max_usage = record {
  namespace = "beacon";
  subsystem = "docker";
  name = "memory_max_usage_bytes";
  help = "Memory max used in bytes";
  label_names = "container" ∷ "image" ∷ "name" ∷ "type" ∷ [];
}

abbrev pub counter_memory_percent : GaugeVec
counter_memory_percent = record {
  namespace = "beacon";
  subsystem = "docker";
  name = "memory_usage_percent";
  help = "Percentage of memory used";
  label_names = "container" ∷ "image" ∷ "name" ∷ "type" ∷ [];
}

abbrev pub counter_network_rx_bytes : GaugeVec
counter_network_rx_bytes = record {
  namespace = "beacon";
  subsystem = "docker";
  name = "network_rx_bytes";
  help = "Network (rx) in bytes";
  label_names = "container" ∷ "image" ∷ "name" ∷ "network" ∷ "type" ∷ [];
}

abbrev pub counter_network_rx_packets : GaugeVec
counter_network_rx_packets = record {
  namespace = "beacon";
  subsystem = "docker";
  name = "network_rx_packets_total";
  help = "Network (rx) packet total";
  label_names = "container" ∷ "image" ∷ "name" ∷ "network" ∷ "type" ∷ [];
}

abbrev pub counter_network_rx_errors : GaugeVec
counter_network_rx_errors = record {
  namespace = "beacon";
  subsystem = "docker";
  name = "network_rx_errors_total";
  help = "Network (rx) error total";
  label_names = "container" ∷ "image" ∷ "name" ∷ "network" ∷ "type" ∷ [];
}

abbrev pub counter_network_rx_dropped : GaugeVec
counter_network_rx_dropped = record {
  namespace = "beacon";
  subsystem = "docker";
  name = "network_rx_dropped_total";
  help = "Network (rx) dropped total";
  label_names = "container" ∷ "image" ∷ "name" ∷ "network" ∷ "type" ∷ [];
}

abbrev pub counter_network_tx_bytes : GaugeVec
counter_network_tx_bytes = record {
  namespace = "beacon";
  subsystem = "docker";
  name = "network_tx_bytes";
  help = "Network (tx) in bytes";
  label_names = "container" ∷ "image" ∷ "name" ∷ "network" ∷ "type" ∷ [];
}

abbrev pub counter_network_tx_packets : GaugeVec
counter_network_tx_packets = record {
  namespace = "beacon";
  subsystem = "docker";
  name = "network_tx_packets_total";
  help = "Network (tx) packet total";
  label_names = "container" ∷ "image" ∷ "name" ∷ "network" ∷ "type" ∷ [];
}

abbrev pub counter_network_tx_errors : GaugeVec
counter_network_tx_errors = record {
  namespace = "beacon";
  subsystem = "docker";
  name = "network_tx_errors_total";
  help = "Network (tx) error total";
  label_names = "container" ∷ "image" ∷ "name" ∷ "network" ∷ "type" ∷ [];
}

abbrev pub counter_network_tx_dropped : GaugeVec
counter_network_tx_dropped = record {
  namespace = "beacon";
  subsystem = "docker";
  name = "network_tx_dropped_total";
  help = "Network (tx) dropped total";
  label_names = "container" ∷ "image" ∷ "name" ∷ "network" ∷ "type" ∷ [];
}

-- allCounters, which init registers and resetStats resets
unfoldable pub all_counters : List GaugeVec
all_counters =
    counter_total_containers ∷ counter_total_images ∷ counter_total_volumes ∷ counter_total_networks
    ∷ counter_cpu_total_usage ∷ counter_memory_usage ∷ counter_memory_max_usage
    ∷ counter_memory_percent ∷ counter_network_rx_bytes ∷ counter_network_rx_packets
    ∷ counter_network_rx_errors ∷ counter_network_rx_dropped ∷ counter_network_tx_bytes
    ∷ counter_network_tx_packets ∷ counter_network_tx_errors ∷ counter_network_tx_dropped ∷ []
