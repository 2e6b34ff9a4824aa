-- ===== src/Server/Poller/Changed.antt =====
-- When the poller asks for a reload.
use mathlib.Core.List.{Perm, foldr}
use interlock_old.Prelude.{
  ◌<◌, ◌⊎◌, ◌∙◌, ◌++◌, [], ◌∷◌, map, ◌≡◌, ◌≢◌, ◌↔◌, refl, sym, ◌≤◌, arith, ℕ, String, List, none,
  some, ◌==◌, eq_iff, eq_refl, ltb, Bool-cases, inl, inr,
}
use interlock_old.Go.Outcome.{ok-injective, Outcome, ok, >>=-eq-ok}
use interlock_old.Go.Sort.{sort, sort-eq_iff, text_ord, nat_ord}
use interlock_old.Platform.{Container}
use interlock_old.Prelude.Int.{ℤ, pos, negsuc}
use interlock_old.Server.Poller.{
  started_with, container_ids, public_ports_of, sum_of, poll, poll_interval, default_poll_interval,
}

-- All the IDs and all the public ports of a listing.
abbrev pub ids_in : List Container → List String
ids_in cs = map (λ c. c.id) cs

abbrev pub ports_in : List Container → List ℕ
ports_in cs = foldr (λ c ports. c.public_ports ++ ports) [] cs

-- The containers and their public ports are the same, in whatever order.
abbrev pub IsSameHost : List Container → List Container → Type 0
IsSameHost old new = Perm (ids_in old) (ids_in new) × Perm (ports_in old) (ports_in new)

public_ports_of-ports_in : (cs : List Container) → public_ports_of cs ≡ ports_in cs
unfolding public_ports_of
public_ports_of-ports_in [] = refl
public_ports_of-ports_in (c ∷ cs) = rw (public_ports_of-ports_in cs) refl

module _ (digest : List String → List ℕ → String) where
  -- What is hashed is all IDs and all public ports, sorted.
  sum_of-sorted :
      (cs : List Container) → sum_of digest cs ≡ digest (sort (ids_in cs)) (sort (ports_in cs))
  unfolding sum_of container_ids
  sum_of-sorted cs = rw (public_ports_of-ports_in cs) refl

  -- After a round that saw `old`, a round that sees `new` sends no message exactly if the IDs of all
  -- containers and all their public ports are the same, in whatever order, where the digest does not
  -- give the same text for these two pairs of sorted lists unless they are equal.
  pub poll_iff :
      (now : String) (old new : List Container)
      → (digest (sort (ids_in old)) (sort (ports_in old))
            ≡ digest (sort (ids_in new)) (sort (ports_in new))
          → (sort (ids_in old) ≡ sort (ids_in new)) × (sort (ports_in old) ≡ sort (ports_in new)))
      → (poll digest now (ok new) (sum_of digest old) ≡ ok (none, sum_of digest old))
        ↔ IsSameHost old new
  unfolding poll
  poll_iff now old new collision_free = (
    (λ silent. elim (Bool-cases (sum_of digest new == sum_of digest old)) [
      | inl same ↦
          let equal = (eq_iff (sum_of digest new) (sum_of digest old)).0 same in
          let (ids, ports) =
            collision_free (sym (sum_of-sorted old) ∙ (sym equal ∙ sum_of-sorted new)) in
          (
            (sort-eq_iff (ids_in old) (ids_in new)).0 ids,
            (sort-eq_iff (ports_in old) (ports_in new)).0 ports,
          )
      | inr other ↦ cc (rw (other, poll) at silent)
    ]),
    λ (ids, ports).
        let same : sum_of digest old ≡ sum_of digest new =
          rw
            (
              sum_of-sorted old,
              sum_of-sorted new,
              (sort-eq_iff (ids_in old) (ids_in new)).1 ids,
              (sort-eq_iff (ports_in old) (ports_in new)).1 ports,
            )
            refl in
        rw (poll, ← same, eq_refl) refl,
  )

-- Shorter than the default
abbrev pub IsShort : ℤ → Type 0
IsShort (pos n) = n < default_poll_interval
IsShort (negsuc n) = Unit

started_with-cases :
    (text : String) (set : ℤ)
    → (default_poll_interval ≤ (started_with text set).every)
      × (((set ≡ pos (started_with text set).every) × ((started_with text set).config ≡ text))
          ⊎ (((started_with text set).every ≡ default_poll_interval)
              × IsShort set
              × ((started_with text set).config ≡ "2s")))
unfolding started_with
started_with-cases text (negsuc n) = (omega arith, inr (refl, tt, refl))
started_with-cases text (pos n) = elim (Bool-cases (ltb n 2000000000)) [
  | inl short ↦ rw (started_with, short) (omega arith, inr (refl, ground (arith, short), refl))
  | inr long ↦ rw (started_with, long) (ground (arith, long), inl (refl, refl))
]

-- The poller runs only where PollInterval is set and can be parsed, and at most every two seconds: the
-- interval is the one that is set, or two seconds where that is shorter, and then the configuration
-- says so.
pub poll_interval-bounds :
    (parse_duration : String → Outcome ℤ) (text kept : String) (d : ℕ)
    → poll_interval parse_duration text ≡ ok (some (record { config = kept; every = d }))
    → (text ≢ "")
      × (default_poll_interval ≤ d)
      × ((set : ℤ) × (parse_duration text ≡ ok set)
          × (((set ≡ pos d) × (kept ≡ text))
              ⊎ ((d ≡ default_poll_interval) × IsShort set × (kept ≡ "2s"))))
unfolding poll_interval
poll_interval-bounds parse_duration text kept d found = elim (Bool-cases (text == "")) [
  | inl none_set ↦ cc (rw (none_set, poll_interval) at found)
  | inr some_set ↦
      let (set, parsed, e) =
        >>=-eq-ok (parse_duration text) _ (rw (some_set, poll_interval) at found) in
      let e' : started_with text set ≡ record { config = kept; every = d } = cc (ok-injective e) in
      let (long, source) = started_with-cases text set in
      (
        (λ empty. cc (some_set, (eq_iff text "").1 empty)),
        rw e' at long,
        (set, parsed, rw e' at source),
      )
]
