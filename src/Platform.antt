-- ===== src/Platform.antt =====
-- What the program calls outside its own sources: the Docker engine's client (the types are those of
-- the package engine-api, less the fields that the program does not read) and net.ParseCIDR.
use interlock_old.Prelude.{ℕ, String, List}
use interlock_old.Go.Maps.{Map}
use interlock_old.Go.Outcome.{Outcome}

-- container.Config
pub record ContainerConfig : Type 0 where
  pub hostname : String
  pub domainname : String
  pub image : String
  pub exposed_ports : List String
  pub labels : Map String

-- nat.PortBinding
pub record PortBinding : Type 0 where
  pub host_ip : String
  pub host_port : String

-- nat.PortMap: a port such as "80/tcp", with the addresses of the host at which it is published
abbrev pub PortMap : Type 0
PortMap = Map (List PortBinding)

-- types.ContainerJSON, the answer of ContainerInspect; `ports` is NetworkSettings.Ports
pub record ContainerJson : Type 0 where
  pub id : String
  pub name : String
  pub config : ContainerConfig
  pub ports : PortMap  -- NetworkSettings.Ports, in the order of the first range over it
  pub ports_again : PortMap  -- the same map, in the order of the loop for a custom port
  pub networks : List String  -- the names in NetworkSettings.Networks

-- types.Container, an item of ContainerList's answer; `networks` is NetworkSettings.Networks, with the
-- networks' IDs
pub record Container : Type 0 where
  pub id : String
  pub names : List String
  pub labels : Map String
  pub state : String
  pub networks : Map String
  pub public_ports : List ℕ

-- types.NetworkResource; `containers` gives each container's IPv4 address in CIDR notation
pub record NetworkResource : Type 0 where
  pub name : String
  pub containers : Map String

-- events.Message; `attributes` is Actor.Attributes
pub record Message : Type 0 where
  pub status : String
  pub action : String
  pub type : String
  pub id : String
  pub attributes : Map String

-- The answers that a run of the code sees.
pub record Platform : Type 0 where
  pub container_inspect : String → Outcome ContainerJson
  pub network_inspect : String → Outcome NetworkResource
  pub parse_cidr : String → Outcome String  -- the address, printed by IP.String
