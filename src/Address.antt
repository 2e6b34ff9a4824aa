-- ===== src/Address.antt =====
-- network.go of ext/lb/utils, and the part of GenerateProxyConfig, the same in ext/lb/nginx and in
-- ext/lb/haproxy, that finds the address of a container. The loops over one port map visit it in
-- one order.
pub mod Laws
pub mod Panics
use interlock_old.Prelude.{
  ℕ, String, ◌<>◌, Bool, true, false, Option, none, some, List, [], ◌∷◌, ◌==◌, if◌then◌else◌,
}
use interlock_old.Go.Outcome.{Outcome, ok, err, panic, ◌>>=◌}
use interlock_old.Go.Text.{first_part}
use interlock_old.Go.Maps.{Map, lookup}
use interlock_old.Platform.{
  Platform, ContainerConfig, ContainerJson, NetworkResource, PortBinding, PortMap,
}
use interlock_old.Ext

unfoldable pub overlay_enabled : ContainerConfig → Option String
unfolding lookup
overlay_enabled config = lookup Ext.network_label config.labels

-- "parse the port": the number of the first port whose name is not empty
unfoldable pub first_port : PortMap → String
unfolding first_part
first_port [] = ""
first_port ((k, v) ∷ ports) = if k == "" then first_port ports else first_part b'/' k

-- the custom port, or the first one
unfoldable pub overlay_port : ContainerJson → String
unfolding lookup first_port
overlay_port info = elim (lookup Ext.port_label info.config.labels) [
  | none ↦ first_port info.ports
  | some v ↦ v
]

unfoldable pub backend_overlay_address : Platform → NetworkResource → ContainerJson → Outcome String
unfolding lookup overlay_port
backend_overlay_address platform network info = elim (lookup info.id network.containers) [
  | none ↦ err ("container " <> (info.id <> (" is not connected to network " <> network.name)))
  | some cidr ↦ do ip ← platform.parse_cidr cidr; ok (ip <> (":" <> overlay_port info))
]

-- "parse the published port": the first address of the first port that has one
unfoldable pub first_published : PortMap → PortBinding
first_published [] = record { host_ip = ""; host_port = "" }
first_published ((k, []) ∷ ports) = first_published ports
first_published ((k, binding ∷ more) ∷ ports) = binding

-- port := x[0]; portDef.HostPort = port.HostPort
unfoldable pub first_host_port : List PortBinding → Outcome String
first_host_port [] = panic
first_host_port (binding ∷ more) = ok binding.host_port

-- The loop over the ports for a custom port; `port` is the host port found before.
unfoldable pub custom_port : String → String → PortMap → Outcome String
unfolding first_part first_host_port
custom_port wanted port [] = ok port
custom_port wanted port ((k, x) ∷ ports) =
    let rest = custom_port wanted port ports in
    if first_part b'/' k == wanted then first_host_port x else rest

unfoldable pub backend_address : ContainerJson → String → Outcome String
unfolding lookup first_published custom_port
backend_address info override =
    let binding = first_published info.ports in
    let ip = if override == "" then binding.host_ip else override in
    do
      port ← elim (lookup Ext.port_label info.config.labels) [
        | none ↦ ok binding.host_port
        | some wanted ↦ custom_port wanted binding.host_port info.ports_again
      ]
      ok (ip <> (":" <> port))

-- portsExposed
unfoldable pub ports_exposed : PortMap → Bool
ports_exposed [] = false
ports_exposed ((k, []) ∷ ports) = ports_exposed ports
ports_exposed ((k, binding ∷ more) ∷ ports) = true

-- The address of a container, and the overlay network that the proxies must join to reach it.
pub record Backend : Type 0 where
  pub addr : String
  pub network : Option String

-- "check for networking": an error is logged and the container is passed over.
unfoldable pub find_backend : Platform → String → ContainerJson → Outcome Backend
unfolding overlay_enabled backend_overlay_address ports_exposed backend_address
find_backend platform override info = elim (overlay_enabled info.config) [
  | some n ↦ do
    network ← platform.network_inspect n
    addr ← backend_overlay_address platform network info
    ok (record { addr = addr; network = some n })
  | none ↦
      if ports_exposed info.ports
      then (do addr ← backend_address info override; ok (record { addr = addr; network = none }))
      else err "no ports exposed"
]
