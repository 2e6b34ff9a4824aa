-- ===== src/LoadBalancer/Restart.antt =====
-- proxyContainersToRestart of ext/lb/lb.go: each Interlock node restarts its share of the proxies.
pub mod Shares
pub mod Members
use interlock_old.Prelude.{
  ℕ, zero, suc, ◌-◌, ◌/◌, String, Bool, true, false, List, [], ◌∷◌, length, take, drop, eqb,
  if◌then◌else◌,
}
use interlock_old.Go.Outcome.{Outcome, ok, err, panic, ◌>>=◌}
use interlock_old.Go.Text.{slice_to}
use interlock_old.Go.Maps.{Map, index, insert}
use interlock_old.Platform.{Container}

-- The loop that cuts each node's share off the end of the list; the last node has what is left.
-- Go's slices would panic at `sub` above the length, which does not occur.
unfoldable pub assign :
    ℕ → List Container → List Container → Map (List Container) → Map (List Container)
unfolding insert
assign sub [] proxies work = work
assign sub (node ∷ []) proxies work = insert node.id proxies work
assign sub (node ∷ next ∷ nodes) proxies work =
    let left = length proxies - sub in
    assign sub (next ∷ nodes) (take left proxies) (insert node.id (drop left proxies) work)

-- The IDs are cut for the log.
unfoldable pub cut_ids : List Container → Outcome (List String)
unfolding slice_to
cut_ids [] = ok []
cut_ids (c ∷ cs) = do id ← slice_to 8 c.id; ids ← cut_ids cs; ok (id ∷ ids)

unfoldable pub proxy_containers_to_restart :
    String → List Container → List Container → Outcome (List Container)
unfolding assign cut_ids index
proxy_containers_to_restart node_id [] proxies = ok proxies
proxy_containers_to_restart node_id (node ∷ []) proxies = ok proxies
proxy_containers_to_restart node_id (node ∷ next ∷ nodes) proxies =
    let sub = length proxies / length (node ∷ next ∷ nodes) in
    let work = assign sub (node ∷ next ∷ nodes) proxies [] in
    let restart = index [] node_id work in do _ ← cut_ids restart; ok restart
