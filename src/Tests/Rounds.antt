-- ===== src/Tests/Rounds.antt =====
-- Events, reloads and rounds of an engine that refuses to restart containers, and that never changes.
use interlock_old.Prelude.{
  ◌≡◌, ◌≢◌, refl, ◌≤◌, ◌⊎◌, arith, ℕ, suc, eqb, if◌then◌else◌, inl, String, false, List, [], ◌∷◌,
  ◌++◌, map, length, Option, none, some,
}
use interlock_old.Go.Outcome.{Outcome, ok, err, panic}
use interlock_old.Go.FilePath.{base, dir}
use interlock_old.Platform.{Container}
use interlock_old.Nginx
use interlock_old.Engine.{
  Engine, Effect, copy_to_container, container_kill, container_restart, cache_set, sleep, State,
  meanwhile,
}
use interlock_old.Engine.Effects.{Asks, IsCalm}
use interlock_old.LoadBalancer.Restart.{proxy_containers_to_restart}
use interlock_old.LoadBalancer.Reload.{nginx_reload, haproxy_reload}
use interlock_old.LoadBalancer.Reload.Kept.{
  HasLogName, IsRestart, nginx_reload-signals, haproxy_reload-restarts,
}
use interlock_old.Platform.{Message}
use interlock_old.LoadBalancer.Events.{is_monitored, is_network_action, handle_event}
use interlock_old.LoadBalancer.Events.Due.{IsDue, handle_event-IsDue}
use interlock_old.LoadBalancer.Events.Answered.{starts, handle_event-Calls}
use interlock_old.LoadBalancer.Update.{
  nginx_backend, proxies_of, is_proxy, proxy_containers, refresh, update,
}
use interlock_old.LoadBalancer.Update.Refreshed.{connections, nodes_among}
use interlock_old.LoadBalancer.Update.Failed.{update-untouched}
use interlock_old.LoadBalancer.Update.Rounds.{update-nginx_backend}
use interlock_old.Tests.Samples.{
  extension, inspect, containers, first_info, platform, listed, generation,
}
use interlock_old.Tests.Addresses.{platform-Returns}
use interlock_old.Tests.NginxRuns.{web_config}
use interlock_old.Go.Maps.{has_key}

abbrev pub proxy : Container
proxy = record (listed "dddddddddddddddd") { labels = ("interlock.ext.name", "nginx") ∷ [] }

abbrev pub answer : Effect → Option String
answer (container_restart id wait) = some "no such container"
answer (container_kill id signal) = some "no such container"
answer effect = none

abbrev pub host : Engine
host = record {
  World = Unit {0};
  answers = λ w. platform;
  container_list = λ w. ok (proxy ∷ containers);
  look_path = λ name w. some "/sbin/iptables";
  cache_has = λ key w. false;
  passes = λ w. w;
  perform = λ effect w. (answer effect, tt);
}

abbrev pub begin : State (Unit {0})
begin = record { world = tt; asked = [] }

pub proxy-HasLogName : HasLogName proxy
proxy-HasLogName = record { long_id = omega arith; name = "/web"; others = []; named = refl }

nginx_reload-signals_example :
    Asks (nginx_reload host (proxy ∷ []) begin) [] (container_kill "dddddddddddddddd" "HUP" ∷ []) tt
nginx_reload-signals_example = nginx_reload-signals host (proxy ∷ []) begin (proxy-HasLogName, tt)

haproxy_reload-restarts_example :
    (effects : List Effect) × IsRestart host (extension "haproxy") tt (proxy ∷ []) effects
    × Asks (haproxy_reload host (extension "haproxy") (proxy ∷ []) begin) [] effects tt
haproxy_reload-restarts_example =
    haproxy_reload-restarts host (extension "haproxy") (proxy ∷ []) begin (proxy-HasLogName, tt)

abbrev pub started : Message
started = record {
  status = "start";
  action = "start";
  type = "container";
  id = "aaaaaaaaaaaaaaaa";
  attributes = [];
}

handle_event-IsDue_example :
    (pauses : List ℕ) × (length pauses ≤ 6)
    × (((handle_event host started begin).1.asked ≡ [] ++ map sleep pauses)
        ⊎ (IsDue host started
            × ((handle_event host started begin).1.asked
                ≡ [] ++ (map sleep pauses ++ cache_set "reload" ∷ []))))
handle_event-IsDue_example = handle_event-IsDue host started begin

handle_event-Calls_example :
    Asks (handle_event host started begin) [] ([] ++ cache_set "reload" ∷ []) tt
unfolding is_monitored is_network_action has_key
handle_event-Calls_example =
    handle_event-Calls host started begin refl (starts first_info refl refl refl)

-- An engine whose second listing fails.
abbrev failing : Engine
failing = record host {
  World = ℕ;
  answers = λ w. platform;
  container_list = λ w. if eqb w 0 then ok (proxy ∷ containers) else err "timeout";
  look_path = λ name w. none;
  cache_has = λ key w. false;
  passes = λ w. suc w;
  perform = λ effect w. (none, w);
}

abbrev failed_round : Outcome (Unit {0}) × State ℕ
failed_round =
    update failing (nginx_backend failing (extension "nginx") (λ config. ok "text")) "self"
      (record { world = 0; asked = [] })

update-untouched_example : failed_round.1.asked ≡ []
unfolding Nginx.generate_proxy_config generation update refresh proxy_containers meanwhile
    nginx_backend
update-untouched_example =
    update-untouched failing (nginx_backend failing (extension "nginx") (λ config. ok "text"))
      "self" (record { world = 0; asked = [] }) "timeout"
      (extension "nginx", inl ((λ config. ok "text"), refl)) refl

pub generated :
    Nginx.generate_proxy_config platform (extension "nginx") (proxy ∷ containers) ≡ ok web_config
unfolding Nginx.generate_proxy_config generation
generated = refl

IsCalm-of : {A : Type 0} (m : Outcome A) → m ≢ panic → IsCalm m
IsCalm-of (ok a) h = tt
IsCalm-of (err e) h = tt
IsCalm-of panic h = absurd (h refl)

pub inspect-IsCalm : (id : String) → IsCalm (inspect id)
inspect-IsCalm id = IsCalm-of (inspect id) (platform-Returns.container_inspect id)

update-nginx_backend_example :
    (w : Unit {0}) × (restart : List Container) × (proxy_containers_to_restart "self"
        (nodes_among "self" platform (proxy ∷ containers))
        (proxies_of "nginx" (proxy ∷ containers))
      ≡ ok restart)
    × Asks
        (update host (nginx_backend host (extension "nginx") (λ config. ok "text")) "self" begin)
        []
        (map
            (λ cnt.
              copy_to_container cnt.id (dir "/etc/proxy.conf") (base "/etc/proxy.conf") "text")
            (proxies_of "nginx" (proxy ∷ containers))
          ++ (connections web_config.networks (proxies_of "nginx" (proxy ∷ containers))
              ++ (sleep 1000 ∷ map (λ cnt. container_kill cnt.id "HUP") restart)))
        tt
unfolding proxies_of is_proxy
update-nginx_backend_example =
    update-nginx_backend host (extension "nginx") (λ config. ok "text") "self" begin
      (proxy ∷ containers) (proxy ∷ containers) web_config "text" refl refl generated refl refl
      (λ w id. inspect-IsCalm id) (proxy-HasLogName, tt)
