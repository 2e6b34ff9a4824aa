-- ===== src/LoadBalancer/Restart/Members.antt =====
-- The containers to restart are proxies, so that the log can name them.
use Prim.Native.String.{len, slice}
use interlock_old.Prelude.{
  ◌≡◌, refl, ◌≤◌, ◌-◌, ℕ, zero, suc, String, List, [], ◌∷◌, length, take, drop, All, le→leb, ◌/◌,
}
use interlock_old.Go.Outcome.{ok}
use interlock_old.Go.Text.{slice_to}
use interlock_old.Go.Maps.{Map, index, insert}
use interlock_old.Go.Maps.Keys.{All-insert, All-index_or}
use interlock_old.Platform.{Container}
use interlock_old.LoadBalancer.Restart.{assign, cut_ids, proxy_containers_to_restart}

All-take {ℓ κ} : {A : Type ℓ} (P : A → Type κ) (n : ℕ) (xs : List A) → All P xs → All P (take n xs)
All-take P zero xs h = tt
All-take P (suc n) [] h = tt
All-take P (suc n) (x ∷ xs) h = (h.0, All-take P n xs h.1)

All-drop {ℓ κ} : {A : Type ℓ} (P : A → Type κ) (n : ℕ) (xs : List A) → All P xs → All P (drop n xs)
All-drop P zero xs h = h
All-drop P (suc n) [] h = tt
All-drop P (suc n) (x ∷ xs) h = All-drop P n xs h.1

pub slice_to-ok : (n : ℕ) (s : String) → n ≤ len s → slice_to n s ≡ ok (slice s 0 n)
unfolding slice_to
slice_to-ok n s h = rw (le→leb n (len s) h) refl

cut_ids-ok :
    (cs : List Container) → All (λ c. 8 ≤ len c.id) cs → (ids : List String) × (cut_ids cs ≡ ok ids)
unfolding cut_ids
cut_ids-ok [] h = ([], refl)
cut_ids-ok (c ∷ cs) h =
    let (ids, found) = cut_ids-ok cs h.1 in
    (slice c.id 0 8 ∷ ids, rw (slice_to-ok 8 c.id h.0, found) refl)

module _ {κ} (P : Container → Type κ) where
  All-assign :
      (sub : ℕ) (nodes proxies : List Container) (work : Map (List Container))
      → All P proxies
      → All (λ e. All P e.1) work
      → All (λ e. All P e.1) (assign sub nodes proxies work)
  unfolding assign
  All-assign sub [] proxies work h k = k
  All-assign sub (node ∷ []) proxies work h k = All-insert (λ _ v. All P v) node.id proxies work h k
  All-assign sub (node ∷ next ∷ nodes) proxies work h k =
      let left = length proxies - sub in
      All-assign sub (next ∷ nodes) (take left proxies) (insert node.id (drop left proxies) work)
        (All-take P left proxies h)
        (All-insert (λ _ v. All P v) node.id (drop left proxies) work (All-drop P left proxies h) k)

-- If the log can cut the IDs of the proxies, a node is told what to restart, and these are proxies.
pub proxy_containers_to_restart-ok {κ} :
    (P : Container → Type κ) (node_id : String) (nodes proxies : List Container)
    → All P proxies
    → All (λ c. 8 ≤ len c.id) proxies
    → (restart : List Container) × (proxy_containers_to_restart node_id nodes proxies ≡ ok restart)
      × All P restart
unfolding proxy_containers_to_restart
proxy_containers_to_restart-ok P node_id [] proxies h long = (proxies, refl, h)
proxy_containers_to_restart-ok P node_id (node ∷ []) proxies h long = (proxies, refl, h)
proxy_containers_to_restart-ok P node_id (node ∷ next ∷ nodes) proxies h long =
    let sub = length proxies / length (node ∷ next ∷ nodes) in
    let work = assign sub (node ∷ next ∷ nodes) proxies [] in
    let long_ids =
      All-index_or (λ v. All (λ c. 8 ≤ len c.id) v) [] node_id work tt
        (All-assign (λ c. 8 ≤ len c.id) sub (node ∷ next ∷ nodes) proxies [] long tt) in
    let (ids, cut) = cut_ids-ok (index [] node_id work) long_ids in
    (
      index [] node_id work,
      rw cut refl,
      All-index_or (λ v. All P v) [] node_id work tt
          (All-assign P sub (node ∷ next ∷ nodes) proxies [] h tt),
    )
