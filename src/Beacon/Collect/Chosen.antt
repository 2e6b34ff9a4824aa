-- ===== src/Beacon/Collect/Chosen.antt =====
-- A collection ends, and reports what the rules choose.
use Prim.Native.String.{[], ◌∷◌}
use interlock_old.Prelude.{
  ◌≡◌, refl, ◌⊎◌, inl, inr, ℕ, String, Bool, [], ◌∷◌, All, IsIn, ◌==◌, eq_iff, Bool-cases,
}
use interlock_old.Go.Outcome.{Outcome, ok}
use interlock_old.Go.Maps.{Map}
use interlock_old.Config.{Rule}
use interlock_old.Platform.{ContainerJson}
use interlock_old.Beacon.Rules.{HasChoosingRule}
use interlock_old.Beacon.Stats.{Stat, send_prometheus}
use interlock_old.Beacon.Influx.{Client, send_influxdb}
use interlock_old.Beacon.Collect.{Source, Report, gauges_set, batches_sent, short_id, report}

module _ {F : Type 0} (percent_of : ℕ → ℕ → F) (float : ℕ → F) (client : Client F)
    (backend : String) (source : Source) where
  -- The statistic is of the container that the short ID names, and went to the chosen backend alone.
  pub record IsReportOf (id : String) (r : Report F) : Type 0 where
    pub shortened : short_id id ≡ ok r.stat.id
    pub info : ContainerJson
    pub inspected : source.container_inspect r.stat.id ≡ ok info
    pub image : r.stat.image ≡ info.config.image
    pub sink :
        ((backend ≡ "prometheus") × (r.sink ≡ gauges_set (send_prometheus float r.stat)))
        ⊎ ((backend ≡ "influxdb") × (r.sink ≡ batches_sent (send_influxdb client r.stat)))

  pub report-IsReportOf :
      (id : String) (stat : Stat F) (info : ContainerJson)
      → short_id id ≡ ok stat.id
      → source.container_inspect stat.id ≡ ok info
      → stat.image ≡ info.config.image
      → All (IsReportOf id) (report percent_of float client backend source stat)
  unfolding report
  report-IsReportOf id stat info shortened inspected image =
      elim (Bool-cases (backend == "prometheus")) [
        | inl prometheus ↦
            rw (report, prometheus)
              (
                record {
                  shortened = shortened;
                  info = info;
                  inspected = inspected;
                  image = image;
                  sink = inl ((eq_iff backend "prometheus").0 prometheus, refl);
                },
                tt,
              )
        | inr other ↦ elim (Bool-cases (backend == "influxdb")) [
          | inl influxdb ↦
              rw (report, other, influxdb)
                (
                  record {
                    shortened = shortened;
                    info = info;
                    inspected = inspected;
                    image = image;
                    sink = inr ((eq_iff backend "influxdb").0 influxdb, refl);
                  },
                  tt,
                )
          | inr neither ↦ rw (report, other, neither) tt
        ]
      ]

  module _ (match_string : String → String → Outcome Bool) (rules : Map Rule) where
    -- A report of a container that is monitored and that a rule chooses.
    pub record IsChosen (monitored : Map ℕ) (r : Report F) : Type 0 where
      pub id : String
      pub value : ℕ
      pub member : IsIn (id, value) monitored
      pub info : ContainerJson
      pub inspected : source.container_inspect id ≡ ok info
      pub chosen : HasChoosingRule match_string info.config rules
      pub about : IsReportOf id r
