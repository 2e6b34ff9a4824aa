-- ===== src/LoadBalancer/Update.antt =====
-- The update of the proxies in ext/lb/lb.go: the goroutine over lbUpdateChan, ProxyContainers, SaveConfig.
-- An error that the code sends to errChan is the error of the run.
pub mod Refreshed
pub mod Rounds
pub mod Failed
use interlock_old.Prelude.{
  String, Bool, true, false, List, [], ◌∷◌, Option, none, some, ◌&&◌, ◌==◌, if◌then◌else◌,
}
use interlock_old.Go.Outcome.{Outcome, ok, err, panic}
use interlock_old.Go.Text.{contains_past_start}
use interlock_old.Go.Maps.{Map, lookup, has_key}
use interlock_old.Go.FilePath.{base, dir}
use interlock_old.Platform.{Platform, Container, ContainerJson}
use interlock_old.Ext
use interlock_old.Config.{ExtensionConfig}
use interlock_old.Engine.{
  Engine, Effect, copy_to_container, network_connect, sleep, Run, ◌>>=◌, give, lift, attempt,
  reading, ask, meanwhile,
}
use interlock_old.LoadBalancer.Restart.{proxy_containers_to_restart}
use interlock_old.LoadBalancer.Reload
use interlock_old.Nginx
use interlock_old.Haproxy

-- LoadBalancerBackend. `render` is the execution of the backend's template, which text/template does.
pub record Backend (engine : Engine) : Type 1 where
  pub name : String
  pub config_path : String
  pub Config : Type 0
  pub generate_proxy_config : Platform → List Container → Outcome Config
  pub networks : Config → Map String
  pub render : Config → Outcome String
  pub reload : List Container → Run engine.World (Unit {0})

unfoldable pub nginx_backend :
    (engine : Engine) → ExtensionConfig → (Nginx.Config → Outcome String) → Backend engine
nginx_backend engine cfg render = record {
  name = "nginx";
  config_path = cfg.config_path;
  Config = Nginx.Config;
  generate_proxy_config =
      λ platform containers. Nginx.generate_proxy_config platform cfg containers;
  networks = λ config. config.networks;
  render = render;
  reload = λ containers. Reload.nginx_reload engine containers;
}

unfoldable pub haproxy_backend :
    (engine : Engine) → ExtensionConfig → (Haproxy.Config → Outcome String) → Backend engine
haproxy_backend engine cfg render = record {
  name = "haproxy";
  config_path = cfg.config_path;
  Config = Haproxy.Config;
  generate_proxy_config =
      λ platform containers. Haproxy.generate_proxy_config platform cfg containers;
  networks = λ config. config.networks;
  render = render;
  reload = λ containers. Reload.haproxy_reload engine cfg containers;
}

-- The label of a proxy container names the backend.
unfoldable pub is_proxy : String → Container → Bool
unfolding lookup
is_proxy name cnt = elim (lookup Ext.ext_name_label cnt.labels) [
  | none ↦ false
  | some v ↦ v == name
]

unfoldable pub proxies_of : String → List Container → List Container
unfolding is_proxy
proxies_of name [] = []
proxies_of name (cnt ∷ cnts) =
    let rest = proxies_of name cnts in if is_proxy name cnt then cnt ∷ rest else rest

-- The image has "interlock" past its first character, and the label of an Interlock node is there.
unfoldable pub is_node : ContainerJson → Bool
unfolding contains_past_start has_key
is_node info =
    contains_past_start info.config.image "interlock" && has_key Ext.app_label info.config.labels

unfoldable pub is_self : String → Container → Bool
is_self node_id cnt = cnt.id == node_id && cnt.state == "running"

-- An error of the inspection passes over the container.
unfoldable pub node_answer : Outcome ContainerJson → Bool
unfolding is_node
node_answer (ok info) = is_node info
node_answer (err e) = false
node_answer panic = false

module _ (engine : Engine) where
  unfoldable pub proxy_containers : String → Run engine.World (List Container)
  unfolding proxies_of
  proxy_containers name = do
    containers ← reading engine.container_list
    give (proxies_of name containers)

  -- The loop of SaveConfig over the proxies; an error is logged.
  unfoldable pub copy_all : String → String → String → List Container → Run engine.World (Unit {0})
  unfolding ask
  copy_all folder file text [] = give tt
  copy_all folder file text (cnt ∷ cnts) = do
    _ ← ask engine (copy_to_container cnt.id folder file text)
    copy_all folder file text cnts

  unfoldable pub save_config :
      (backend : Backend engine) → backend.Config → List Container → Run engine.World (Unit {0})
  unfolding copy_all base dir
  save_config backend cfg proxies = do
    text ← lift (backend.render cfg)
    copy_all (dir backend.config_path) (base backend.config_path) text proxies

  -- The networks to which a proxy is not connected yet; an error is logged.
  unfoldable pub connect_one : Container → Map String → Run engine.World (Unit {0})
  unfolding ask has_key
  connect_one cnt [] = give tt
  connect_one cnt ((net, value) ∷ networks) = elim (has_key net cnt.networks) [
    | true ↦ connect_one cnt networks
    | false ↦ do _ ← ask engine (network_connect net cnt.id); connect_one cnt networks
  ]

  unfoldable pub connect_all : Map String → List Container → Run engine.World (Unit {0})
  unfolding connect_one
  connect_all networks [] = give tt
  connect_all networks (cnt ∷ cnts) = do _ ← connect_one cnt networks; connect_all networks cnts

  unfoldable pub interlock_nodes : String → List Container → Run engine.World (List Container)
  unfolding is_self node_answer
  interlock_nodes node_id [] = give []
  interlock_nodes node_id (cnt ∷ cnts) = do
    found ← elim (is_self node_id cnt) [
      | true ↦ give true
      | false ↦ do
        answer ← attempt (reading (λ w. (engine.answers w).container_inspect cnt.id))
        give (node_answer answer)
    ]
    nodes ← interlock_nodes node_id cnts
    give (if found then cnt ∷ nodes else nodes)

  -- A round of the loop over lbUpdateChan, after the test of the cache. The proxies are of a second
  -- listing, which may fail or differ from the first.
  unfoldable pub refresh : Backend engine → String → Run engine.World (Unit {0})
  unfolding proxy_containers save_config connect_all interlock_nodes ask meanwhile
  refresh backend node_id = do
    containers ← reading engine.container_list
    cfg ← reading (λ w. backend.generate_proxy_config (engine.answers w) containers)
    _ ← meanwhile engine
    proxies ← proxy_containers backend.name
    _ ← save_config backend cfg proxies
    _ ← connect_all (backend.networks cfg) proxies
    nodes ← interlock_nodes node_id containers
    restart ← lift (proxy_containers_to_restart node_id nodes proxies)
    _ ← ask engine (sleep 1000)
    backend.reload restart

  unfoldable pub update : Backend engine → String → Run engine.World (Unit {0})
  unfolding refresh
  update backend node_id s = elim (engine.cache_has "reload" s.world) [
    | true ↦ (ok tt, s)
    | false ↦ refresh backend node_id s
  ]
