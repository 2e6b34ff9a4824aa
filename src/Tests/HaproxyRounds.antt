-- ===== src/Tests/HaproxyRounds.antt =====
-- A round of the load balancer over HAProxy.
use interlock_old.Prelude.{◌≡◌, refl, List, [], ◌∷◌, ◌++◌, map}
use interlock_old.Go.Outcome.{ok}
use interlock_old.Go.FilePath.{base, dir}
use interlock_old.Platform.{Container}
use interlock_old.Haproxy
use interlock_old.Engine.{Engine, Effect, copy_to_container, sleep}
use interlock_old.Engine.Effects.{Asks}
use interlock_old.LoadBalancer.Restart.{proxy_containers_to_restart}
use interlock_old.LoadBalancer.Update.{haproxy_backend, proxies_of, is_proxy, update}
use interlock_old.LoadBalancer.Update.Refreshed.{connections, nodes_among}
use interlock_old.LoadBalancer.Update.Rounds.{update-haproxy_backend}
use interlock_old.LoadBalancer.Reload.Kept.{IsRestart}
use interlock_old.Tests.Samples.{extension, containers, platform, generation}
use interlock_old.Tests.Rounds.{host, begin, proxy, proxy-HasLogName, inspect-IsCalm}
use interlock_old.Tests.HaproxyRuns.{web_config}

abbrev balancer : Container
balancer = record proxy { labels = ("interlock.ext.name", "haproxy") ∷ [] }

abbrev site : Engine
site = record host { container_list = λ w. ok (balancer ∷ containers) }

generated :
    Haproxy.generate_proxy_config platform (extension "haproxy") (balancer ∷ containers)
    ≡ ok web_config
unfolding Haproxy.generate_proxy_config generation
generated = refl

update-haproxy_backend_example :
    (w : Unit {0}) × (restart : List Container) × (proxy_containers_to_restart "self"
        (nodes_among "self" platform (balancer ∷ containers))
        (proxies_of "haproxy" (balancer ∷ containers))
      ≡ ok restart)
    × (effects : List Effect) × ((v : Unit {0}) × IsRestart site
          (extension "haproxy")
          v
          restart
          effects)
    × Asks
        (update site
          (haproxy_backend site (extension "haproxy") (λ config. ok "text"))
          "self"
          begin)
        []
        (map
            (λ cnt.
              copy_to_container cnt.id (dir "/etc/proxy.conf") (base "/etc/proxy.conf") "text")
            (proxies_of "haproxy" (balancer ∷ containers))
          ++ (connections web_config.networks (proxies_of "haproxy" (balancer ∷ containers))
              ++ (sleep 1000 ∷ effects)))
        tt
unfolding proxies_of is_proxy
update-haproxy_backend_example =
    update-haproxy_backend site (extension "haproxy") (λ config. ok "text") "self" begin
      (balancer ∷ containers) (balancer ∷ containers) web_config "text" refl refl generated refl
      refl (λ w id. inspect-IsCalm id)
      (record { long_id = proxy-HasLogName.long_id; name = "/web"; others = []; named = refl }, tt)
