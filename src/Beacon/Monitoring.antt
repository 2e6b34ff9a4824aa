-- ===== src/Beacon/Monitoring.antt =====
-- Which containers the beacon monitors after an event.
use interlock_old.Prelude.{
  ◌≡◌, ◌∙◌, refl, ap, inl, inr, arith, ℕ, String, Option, none, some, Bool, true, false, not, ◌||◌,
  ◌&&◌, List, [], ◌∷◌, ◌==◌, Bool-cases, if◌then◌else◌,
}
use interlock_old.Go.Outcome.{Outcome, ok, ◌>>=◌}
use interlock_old.Go.Maps.{Map, insert, delete, has_key, lookup, lookup-delete}
use interlock_old.Go.Maps.Keys.{has_key-insert}
use interlock_old.Platform.{Container}
use interlock_old.Beacon.{Beacon, monitor_all, is_end, reset_stats, handle_event}

abbrev pub lists : String → List Container → Bool
lists k [] = false
lists k (c ∷ cs) = c.id == k || lists k cs

has_key-delete :
    (id k : String) (m : Map ℕ) → has_key k (delete id m) ≡ (not (id == k) && has_key k m)
unfolding has_key
has_key-delete id k m = ground (arith, lookup-delete id k m)

has_key-monitor_all :
    (k : String) (cs : List Container) (m : Map ℕ)
    → has_key k (monitor_all cs m) ≡ (lists k cs || has_key k m)
unfolding monitor_all
has_key-monitor_all k [] m = refl
has_key-monitor_all k (c ∷ cs) m =
    ground (arith, has_key-monitor_all k cs (insert c.id 1 m), has_key-insert c.id k 1 m)

-- An event, with the engine's listing of the containers at that time.
pub record Event : Type 0 where
  pub status : String
  pub id : String
  pub listing : List Container

-- What an event says about a container, if it says anything: it runs, or it has ended.
abbrev pub says : String → Event → Option Bool
says k e =
    if e.status == "interlock-start"
    then (if lists k e.listing then some true else none)
    else if e.status == "start"
    then (if e.id == k then some true else none)
    else if is_end e.status
    then (if e.id == k then some false else none)
    else none

-- The last word on a container in a history, whose newest event stands first.
abbrev pub last_word : String → List Event → Bool
last_word k [] = false
last_word k (e ∷ older) = elim (says k e) [ none ↦ last_word k older | some word ↦ word ]

module _ {Counters : Type 0} (reset : Counters → Counters) where
  -- The beacon after a history, whose newest event stands first.
  abbrev pub after : List Event → Beacon Counters → Outcome (Beacon Counters)
  after [] b = ok b
  after (e ∷ older) b = do b' ← after older b; handle_event reset e.status e.id (ok e.listing) b'

  handle_event-says :
      (e : Event) (b : Beacon Counters)
      → (b' : Beacon Counters) × (handle_event reset e.status e.id (ok e.listing) b ≡ ok b')
        × ((k : String)
            → has_key k b'.monitored
              ≡ elim (says k e) [ none ↦ has_key k b.monitored | some word ↦ word ])
  unfolding handle_event reset_stats
  handle_event-says e b = elim (Bool-cases (e.status == "interlock-start")) [
    | inl scan ↦ (
      record b { monitored = monitor_all e.listing b.monitored },
      rw (scan, handle_event) refl,
      λ k. rw scan (ground (arith, has_key-monitor_all k e.listing b.monitored)),
    )
    | inr no_scan ↦ elim (Bool-cases (e.status == "start")) [
      | inl start ↦ (
        record b { monitored = insert e.id 1 b.monitored },
        rw (no_scan, start, handle_event) refl,
        λ k. rw (no_scan, start) (ground (arith, has_key-insert e.id k 1 b.monitored)),
      )
      | inr no_start ↦ elim (Bool-cases (is_end e.status)) [
        | inl end ↦ (
          reset_stats reset e.id (record b { monitored = delete e.id b.monitored }),
          rw (no_scan, no_start, end, handle_event) refl,
          λ k. rw (no_scan, no_start, end) (ground (arith, has_key-delete e.id k b.monitored)),
        )
        | inr other ↦ (
          b,
          rw (no_scan, no_start, other, handle_event) refl,
          λ k. rw (no_scan, no_start, other) refl,
        )
      ]
    ]
  ]

  -- From no monitored container on, where every listing succeeds, each history is handled without an
  -- error, and a container is monitored after it exactly if the last event that says something about
  -- it says that it runs: it starts, or the listing at an Interlock start has it.
  pub after-last_word :
      (history : List Event) (counters : Counters)
      → (b : Beacon Counters) × (after history (record { monitored = []; counters = counters })
          ≡ ok b)
        × ((k : String) → has_key k b.monitored ≡ last_word k history)
  unfolding has_key lookup
  after-last_word [] counters = (_, refl, λ k. refl)
  after-last_word (e ∷ older) counters =
      let (b, ran, words) = after-last_word older counters in
      let (b', handled, said) = handle_event-says e b in
      (
        b',
        rw ran handled,
        λ k. said k ∙ ap (λ h. elim (says k e) [ none ↦ h | some word ↦ word ]) (words k),
      )
