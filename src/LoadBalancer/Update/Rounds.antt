-- ===== src/LoadBalancer/Update/Rounds.antt =====
-- A round of the loop over lbUpdateChan that updates the proxies.
use interlock_old.Prelude.{◌≡◌, refl, String, false, List, ◌∷◌, ◌++◌, map, All}
use interlock_old.Go.Outcome.{Outcome, ok}
use interlock_old.Go.FilePath.{base, dir}
use interlock_old.Platform.{Container}
use interlock_old.Config.{ExtensionConfig}
use interlock_old.Nginx
use interlock_old.Haproxy
use interlock_old.Engine.{Engine, copy_to_container, sleep, container_kill, Effect, State}
use interlock_old.Engine.Effects.{Asks, IsCalm}
use interlock_old.LoadBalancer.Restart.{proxy_containers_to_restart}
use interlock_old.LoadBalancer.Reload.Kept.{
  HasLogName, IsRestart, nginx_reload-signals, haproxy_reload-restarts,
}
use interlock_old.LoadBalancer.Update.{nginx_backend, haproxy_backend, proxies_of, update}
use interlock_old.LoadBalancer.Update.Refreshed.{connections, nodes_among, Asks-refresh}

-- Where no reload was done just before, and the containers are listed twice, the second time after others
-- may have changed them, nginx's configuration is generated of the first listing and printed, no inspection panics and the log can name the proxies, a round asks for exactly this,
-- whatever errors the engine returns: the text is copied to the file of each container with nginx's label in the second listing;
-- each is connected to the networks of the configuration that it lacks; after a pause of a second
-- HUP is sent to this node's share, among the nodes as inspected then.
pub update-nginx_backend :
    (engine : Engine) (cfg : ExtensionConfig) (render : Nginx.Config → Outcome String)
    (node_id : String) (s : State engine.World) (containers : List Container)
    (again : List Container) (config : Nginx.Config) (text : String)
    → engine.cache_has "reload" s.world ≡ false
    → engine.container_list s.world ≡ ok containers
    → Nginx.generate_proxy_config (engine.answers s.world) cfg containers ≡ ok config
    → engine.container_list (engine.passes s.world) ≡ ok again
    → render config ≡ ok text
    → ((w : engine.World) (id : String) → IsCalm ((engine.answers w).container_inspect id))
    → All HasLogName (proxies_of "nginx" again)
    → (w : engine.World) × (restart : List Container) × (proxy_containers_to_restart node_id
          (nodes_among node_id (engine.answers w) containers)
          (proxies_of "nginx" again)
        ≡ ok restart)
      × Asks
          (update engine (nginx_backend engine cfg render) node_id s)
          s.asked
          (map
              (λ cnt. copy_to_container cnt.id (dir cfg.config_path) (base cfg.config_path) text)
              (proxies_of "nginx" again)
            ++ (connections config.networks (proxies_of "nginx" again)
                ++ (sleep 1000 ∷ map (λ cnt. container_kill cnt.id "HUP") restart)))
          tt
unfolding update nginx_backend
update-nginx_backend engine cfg render node_id s containers again config text free listed generated
      listed_again rendered calm logged =
    let (w, restart, chosen, effects, same, asks) =
      Asks-refresh engine (nginx_backend engine cfg render) node_id
        (λ cnts es. es ≡ map (λ cnt. container_kill cnt.id "HUP") cnts) containers again config text
        s (λ cnts t h. (_, refl, nginx_reload-signals engine cnts t h)) listed generated
        listed_again rendered calm logged in
    (w, restart, chosen, rw (free, update) (rw same at asks))

-- Where no reload was done just before, and the containers are listed twice, the second time after others
-- may have changed them, HAProxy's configuration is generated of the first listing and printed, no inspection panics and the log can name the proxies, a round asks for exactly
-- this, whatever errors the engine and iptables return: the text is copied to the file of each container
-- with HAProxy's label in the second listing; each is connected to the networks of the configuration that it lacks; after a
-- pause of a second this node's share is restarted, in order, after and before rules against SYN
-- packets are inserted for the proxy's ports, in order, up to the first that iptables refuses.
pub update-haproxy_backend :
    (engine : Engine) (cfg : ExtensionConfig) (render : Haproxy.Config → Outcome String)
    (node_id : String) (s : State engine.World) (containers : List Container)
    (again : List Container) (config : Haproxy.Config) (text : String)
    → engine.cache_has "reload" s.world ≡ false
    → engine.container_list s.world ≡ ok containers
    → Haproxy.generate_proxy_config (engine.answers s.world) cfg containers ≡ ok config
    → engine.container_list (engine.passes s.world) ≡ ok again
    → render config ≡ ok text
    → ((w : engine.World) (id : String) → IsCalm ((engine.answers w).container_inspect id))
    → All HasLogName (proxies_of "haproxy" again)
    → (w : engine.World) × (restart : List Container) × (proxy_containers_to_restart node_id
          (nodes_among node_id (engine.answers w) containers)
          (proxies_of "haproxy" again)
        ≡ ok restart)
      × (effects : List Effect) × ((v : engine.World) × IsRestart engine cfg v restart effects)
      × Asks
          (update engine (haproxy_backend engine cfg render) node_id s)
          s.asked
          (map
              (λ cnt. copy_to_container cnt.id (dir cfg.config_path) (base cfg.config_path) text)
              (proxies_of "haproxy" again)
            ++ (connections config.networks (proxies_of "haproxy" again) ++ (sleep 1000 ∷ effects)))
          tt
unfolding update haproxy_backend
update-haproxy_backend engine cfg render node_id s containers again config text free listed
      generated listed_again rendered calm logged =
    rw (free, update)
      (Asks-refresh engine (haproxy_backend engine cfg render) node_id
        (λ cnts es. (w : engine.World) × IsRestart engine cfg w cnts es) containers again config
        text s
        (λ cnts t h.
          let (es, restarted, asks) = haproxy_reload-restarts engine cfg cnts t h in
          (es, (t.world, restarted), asks))
        listed generated listed_again rendered calm logged)
