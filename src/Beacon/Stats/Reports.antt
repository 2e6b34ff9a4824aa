-- ===== src/Beacon/Stats/Reports.antt =====
-- The two ways to report a statistic agree, and the labels of the gauges.
use interlock_old.Prelude.{◌≡◌, refl, ℕ, [], ◌∷◌, map, All}
use interlock_old.Go.Maps.{Map}
use interlock_old.Beacon.Stats.{
  NetworkStats, Stat, Value, count, percent, gauge, total_gauge, network_gauge, network_gauges,
  send_prometheus, Gauge,
}

-- The value of a point, as a float64.
abbrev pub as_float : {F : Type 0} → (ℕ → F) → Value F → F
as_float float (count n) = float n
as_float float (percent f) = f

-- The labels are those that the gauge was made with, which With needs so as not to panic.
abbrev pub IsLabelled : {F : Type 0} → Gauge F → Type 0
IsLabelled g = map (λ l. l.0) g.labels ≡ g.vec.label_names

module _ {F : Type 0} (float : ℕ → F) where
  network_gauges-IsLabelled :
      (stat : Stat F) (networks : Map NetworkStats)
      → All IsLabelled (network_gauges float stat networks)
  unfolding network_gauges network_gauge
  network_gauges-IsLabelled stat [] = tt
  network_gauges-IsLabelled stat ((net, n) ∷ networks) = (
    refl,
    (refl, (refl, (refl, (refl, (refl, (refl, (refl, network_gauges-IsLabelled stat networks))))))),
  )

  -- Every gauge that sendPrometheus sets is given exactly the labels that it was made with, whatever
  -- the statistic and its networks.
  pub send_prometheus-IsLabelled : (stat : Stat F) → All IsLabelled (send_prometheus float stat)
  unfolding send_prometheus gauge total_gauge
  send_prometheus-IsLabelled stat = (
    refl,
    (
      refl,
      (refl, (refl, (refl, (refl, (refl, (refl, network_gauges-IsLabelled stat stat.networks)))))),
    ),
  )
