-- ===== src/LoadBalancer/Restart/Shares.antt =====
-- The shares of the nodes make up the list of proxies, each proxy once, and all but the last node's
-- have the same size.
use Prim.Native.String.{len, slice}
use interlock_old.Prelude.{
  ℕ, zero, suc, ◌-◌, ◌/◌, ◌*◌, ◌≤◌, String, ◌≡◌, ◌≢◌, ◌∙◌, refl, ap, List, [], ◌∷◌, ◌++◌, length,
  take, drop, take-append-drop, length-drop, All, arith, eq_iff, le→leb,
}
use interlock_old.Go.Outcome.{Outcome, ok, err, panic}
use interlock_old.Go.Text.{slice_to}
use interlock_old.Go.Maps.{Map, index, insert, index-insert}
use interlock_old.Platform.{Container}
use interlock_old.LoadBalancer.Restart.{assign, cut_ids, proxy_containers_to_restart}

abbrev pub LacksId : String → List Container → Type 0
LacksId id cs = All (λ c. c.id ≢ id) cs

abbrev pub HasDistinctIds : List Container → Type 0
HasDistinctIds [] = Unit
HasDistinctIds (c ∷ cs) = LacksId c.id cs × HasDistinctIds cs

-- The shares of the nodes in turn, the last node's first.
abbrev pub gather : (String → List Container) → List Container → List Container
gather share [] = []
gather share (node ∷ nodes) = gather share nodes ++ share node.id

gather_ext :
    (f g : String → List Container) (nodes : List Container)
    → All (λ n. f n.id ≡ g n.id) nodes
    → gather f nodes ≡ gather g nodes
gather_ext f g [] h = refl
gather_ext f g (n ∷ nodes) (e, h) = cc (e, gather_ext f g nodes h)

index-assign_other :
    (id : String) (sub : ℕ) (nodes proxies : List Container) (work : Map (List Container))
    → LacksId id nodes
    → index [] id (assign sub nodes proxies work) ≡ index [] id work
unfolding assign
index-assign_other id sub [] proxies work h = refl
index-assign_other id sub (node ∷ []) proxies work (ne, _) =
    ground (arith, index-insert [] node.id id proxies work, eq_iff node.id id)
index-assign_other id sub (node ∷ next ∷ nodes) proxies work (ne, h) =
    let left = length proxies - sub in
    index-assign_other id sub (next ∷ nodes) (take left proxies)
      (insert node.id (drop left proxies) work) h
    ∙ ground (arith, index-insert [] node.id id (drop left proxies) work, eq_iff node.id id)

index-insert_self :
    (id : String) (v : List Container) (work : Map (List Container))
    → index [] id (insert id v work) ≡ v
index-insert_self id v work = ground (arith, index-insert [] id id v work, eq_iff id id)

gather-assign :
    (sub : ℕ) (node : Container) (nodes proxies : List Container) (work : Map (List Container))
    → HasDistinctIds (node ∷ nodes)
    → gather (λ id. index [] id (assign sub (node ∷ nodes) proxies work)) (node ∷ nodes) ≡ proxies
unfolding assign
gather-assign sub node [] proxies work h = index-insert_self node.id proxies work
gather-assign sub node (next ∷ nodes) proxies work (lacks, h) =
    let left = length proxies - sub in
    let work' = insert node.id (drop left proxies) work in
    rw (gather-assign sub next nodes (take left proxies) work' h) (
      rw (index-assign_other node.id sub (next ∷ nodes) (take left proxies) work' lacks)
        (rw (index-insert_self node.id (drop left proxies) work) (take-append-drop left proxies)))

-- What a node restarts; nothing if the call panics.
abbrev pub restarted : Outcome (List Container) → List Container
restarted (ok cs) = cs
restarted (err e) = []
restarted panic = []

abbrev pub HasLongId : Container → Type 0
HasLongId c = 8 ≤ len c.id

cut_ids-ok : (cs : List Container) → All HasLongId cs → (ids : List String) × (cut_ids cs ≡ ok ids)
unfolding cut_ids slice_to
cut_ids-ok [] h = ([], refl)
cut_ids-ok (c ∷ cs) (long, h) =
    let (ids, rest) = cut_ids-ok cs h in (slice c.id 0 8 ∷ ids, rw (le→leb 8 (len c.id) long, rest))

All-append_inv :
    (xs ys : List Container) → All HasLongId (xs ++ ys) → All HasLongId xs × All HasLongId ys
All-append_inv [] ys h = (tt, h)
All-append_inv (x ∷ xs) ys (p, h) = let (hx, hy) = All-append_inv xs ys h in ((p, hx), hy)

shares-HasLongId :
    (share : String → List Container) (nodes : List Container)
    → All HasLongId (gather share nodes)
    → All (λ n. All HasLongId (share n.id)) nodes
shares-HasLongId share [] h = tt
shares-HasLongId share (n ∷ nodes) h =
    let (rest, here) = All-append_inv (gather share nodes) (share n.id) h in
    (here, shares-HasLongId share nodes rest)

module _ (node next : Container) (nodes proxies : List Container) where
  abbrev size : ℕ
  size = length proxies / length (node ∷ next ∷ nodes)

  -- The share of a node by the table of the call.
  abbrev share : String → List Container
  share id = index [] id (assign size (node ∷ next ∷ nodes) proxies [])

  restart-eq-share :
      (id : String)
      → All HasLongId (share id)
      → restarted (proxy_containers_to_restart id (node ∷ next ∷ nodes) proxies) ≡ share id
  unfolding proxy_containers_to_restart
  restart-eq-share id h = let (ids, cut) = cut_ids-ok (share id) h in rw cut

restart-All :
    (node next : Container) (nodes proxies ns : List Container)
    → All (λ n. All HasLongId (share node next nodes proxies n.id)) ns
    → All
        (λ n.
          restarted (proxy_containers_to_restart n.id (node ∷ next ∷ nodes) proxies)
          ≡ share node next nodes proxies n.id)
        ns
restart-All node next nodes proxies [] h = tt
restart-All node next nodes proxies (n ∷ ns) (p, h) =
    (restart-eq-share node next nodes proxies n.id p, restart-All node next nodes proxies ns h)

-- If there is a node, the IDs of the nodes differ and the IDs of the proxies have at least 8 bytes,
-- then what the nodes restart is, put together from the last node to the first, the list of the
-- proxies: each proxy is restarted by one node, once.
pub gather-restarted :
    (node : Container) (nodes proxies : List Container)
    → HasDistinctIds (node ∷ nodes)
    → All HasLongId proxies
    → gather
        (λ id. restarted (proxy_containers_to_restart id (node ∷ nodes) proxies))
        (node ∷ nodes)
      ≡ proxies
unfolding proxy_containers_to_restart
gather-restarted node [] proxies distinct long = refl
gather-restarted node (next ∷ nodes) proxies distinct long =
    let all =
      gather-assign (size node next nodes proxies) node (next ∷ nodes) proxies [] distinct in
    gather_ext _ (share node next nodes proxies) (node ∷ next ∷ nodes) (
      restart-All node next nodes proxies (node ∷ next ∷ nodes)
        (shares-HasLongId (share node next nodes proxies) (node ∷ next ∷ nodes) (rw all long)))
    ∙ all

abbrev pub AllButLast : (Container → Type 0) → List Container → Type 0
AllButLast P [] = Unit
AllButLast P (n ∷ []) = Unit
AllButLast P (n ∷ next ∷ ns) = P n × AllButLast P (next ∷ ns)

length-take_of_le : (k : ℕ) (xs : List Container) → k ≤ length xs → length (take k xs) ≡ k
length-take_of_le zero xs h = refl
length-take_of_le (suc k) [] h = omega arith
length-take_of_le (suc k) (x ∷ xs) h = omega (arith, length-take_of_le k xs)

sizes-assign :
    (sub : ℕ) (node : Container) (nodes proxies : List Container) (work : Map (List Container))
    → HasDistinctIds (node ∷ nodes)
    → sub * length (node ∷ nodes) ≤ length proxies
    → AllButLast
        (λ n. length (index [] n.id (assign sub (node ∷ nodes) proxies work)) ≡ sub)
        (node ∷ nodes)
unfolding assign
sizes-assign sub node [] proxies work h fits = tt
sizes-assign sub node (next ∷ nodes) proxies work (lacks, h) fits =
    let left = length proxies - sub in
    let work' = insert node.id (drop left proxies) work in
    let cut : sub * suc (length (next ∷ nodes)) ≤ length proxies = fits in
    let kept = length-take_of_le left proxies (omega arith) in
    (
      rw (index-assign_other node.id sub (next ∷ nodes) (take left proxies) work' lacks) (
          rw (index-insert_self node.id (drop left proxies) work)
            (omega (arith, length-drop left proxies, cut))),
      sizes-assign sub next nodes (take left proxies) work' h (omega (arith, kept, cut)),
    )

AllButLast-ext :
    (f g : String → List Container) (k : ℕ) (ns : List Container)
    → All (λ n. f n.id ≡ g n.id) ns
    → AllButLast (λ n. length (g n.id) ≡ k) ns
    → AllButLast (λ n. length (f n.id) ≡ k) ns
AllButLast-ext f g k [] e h = tt
AllButLast-ext f g k (n ∷ []) e h = tt
AllButLast-ext f g k (n ∷ next ∷ ns) (p, e) (q, h) =
    (ap length p ∙ q, AllButLast-ext f g k (next ∷ ns) e h)

quotient-le : (n k : ℕ) → n / suc k * suc k ≤ n
quotient-le n k = grind arith

-- If the IDs of at least two nodes differ, every node but the last restarts the same number of
-- proxies, that of all divided by the number of nodes.
pub length-restarted :
    (node next : Container) (nodes proxies : List Container)
    → HasDistinctIds (node ∷ next ∷ nodes)
    → All HasLongId proxies
    → AllButLast
        (λ n.
          length (restarted (proxy_containers_to_restart n.id (node ∷ next ∷ nodes) proxies))
          ≡ length proxies / length (node ∷ next ∷ nodes))
        (node ∷ next ∷ nodes)
length-restarted node next nodes proxies distinct long =
    let k = size node next nodes proxies in
    let ns = node ∷ next ∷ nodes in
    let all = gather-assign k node (next ∷ nodes) proxies [] distinct in
    AllButLast-ext _ (share node next nodes proxies) k ns
      (restart-All node next nodes proxies ns
        (shares-HasLongId (share node next nodes proxies) ns (rw all long)))
      (sizes-assign k node (next ∷ nodes) proxies [] distinct
        (quotient-le (length proxies) (length (next ∷ nodes))))
