-- ===== src/Tests/Restarts.antt =====
-- The shares of two nodes.
use interlock_old.Prelude.{◌≡◌, refl, [], ◌∷◌, arith, List, ◌/◌, length, eq_iff}
use interlock_old.Go.Outcome.{ok}
use interlock_old.Platform.{Container}
use interlock_old.LoadBalancer.Restart.{proxy_containers_to_restart}
use interlock_old.LoadBalancer.Restart.Shares.{
  gather, restarted, gather-restarted, AllButLast, length-restarted, HasDistinctIds,
}
use interlock_old.Tests.Samples.{listed}

abbrev proxies : List Container
proxies = listed "proxy-01" ∷ listed "proxy-02" ∷ listed "proxy-03" ∷ []

second_share :
    proxy_containers_to_restart "node-2" (listed "node-1" ∷ listed "node-2" ∷ []) proxies
    ≡ ok (listed "proxy-01" ∷ listed "proxy-02" ∷ [])
unfolding proxy_containers_to_restart
second_share = refl

distinct_nodes : HasDistinctIds (listed "node-1" ∷ listed "node-2" ∷ [])
distinct_nodes = ground (arith, eq_iff "node-2" "node-1")

gather-restarted_example :
    gather
      (λ id.
        restarted (proxy_containers_to_restart id (listed "node-1" ∷ listed "node-2" ∷ []) proxies))
      (listed "node-1" ∷ listed "node-2" ∷ [])
    ≡ proxies
gather-restarted_example =
    gather-restarted (listed "node-1") (listed "node-2" ∷ []) proxies distinct_nodes (omega arith)

length-restarted_example :
    AllButLast
      (λ n.
        length (
          restarted
            (proxy_containers_to_restart n.id (listed "node-1" ∷ listed "node-2" ∷ []) proxies))
        ≡ length proxies / length (listed "node-1" ∷ listed "node-2" ∷ []))
      (listed "node-1" ∷ listed "node-2" ∷ [])
length-restarted_example =
    length-restarted (listed "node-1") (listed "node-2") [] proxies distinct_nodes (omega arith)
