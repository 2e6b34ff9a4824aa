-- ===== src/Beacon/Collect/Complete.antt =====
-- A collection from an engine that answers reports every container that the rules choose.
use interlock_old.Prelude.{
  ◌≡◌, ◌≢◌, refl, ◌⊎◌, inl, inr, ℕ, String, Bool, true, List, [], ◌∷◌, All, some, none, length,
  Bool-cases,
}
use interlock_old.Go.Outcome.{Outcome, ok}
use interlock_old.Go.Maps.{Map}
use interlock_old.Config.{Rule}
use interlock_old.Platform.{Container, ContainerConfig, ContainerJson}
use interlock_old.Beacon.Rules.{IsCompiled, HasChoosingRule, rule_match_iff}
use interlock_old.Beacon.Stats.{Stat, send_prometheus}
use interlock_old.Beacon.Influx.{Client, send_influxdb}
use interlock_old.Beacon.Collect.{
  StatsJson, Source, Report, short_id, gauges_set, batches_sent, or_return, pointed, stat_of,
  report, send_inspected, send_container_stats, collect_lines, collect_matched, collect_inspected,
  collect_stats,
}
use interlock_old.Beacon.Collect.Chosen.{IsReportOf, report-IsReportOf}
use interlock_old.Beacon.Collect.Sound.{strip_slash-ok}

-- What the engine answers of a container: its information, by its ID and by the short one, and one
-- statistic.
pub record IsAnswered (source : Source) (id : String) : Type 0 where
  pub info : ContainerJson
  pub inspected : source.container_inspect id ≡ ok info
  pub short : String
  pub shortened : short_id id ≡ ok short
  pub short_info : ContainerJson
  pub short_inspected : source.container_inspect short ≡ ok short_info
  pub named : short_info.name ≢ ""
  pub line : String
  pub stats : StatsJson
  pub sampled : source.container_stats id ≡ ok (line ∷ [])
  pub decoded : source.unmarshal none line ≡ ok (some stats)

-- An engine that answers about what it has.
pub record IsHealthy (source : Source) : Type 0 where
  pub containers : List Container
  pub images : List String
  pub volumes : List String
  pub networks : List String
  pub container_list : source.container_list ≡ ok containers
  pub image_list : source.image_list ≡ ok images
  pub volume_list : source.volume_list ≡ ok volumes
  pub network_list : source.network_list ≡ ok networks

module _ {F : Type 0} (percent_of : ℕ → ℕ → F) (float : ℕ → F) (client : Client F)
    (backend : String) (source : Source) (match_string : String → String → Outcome Bool)
    (rules : Map Rule) where
  -- One report for each monitored container that a rule chooses, in order, and none for the others.
  pub data Reports : Map ℕ → List (Report F) → Type 0 where
    none_left : Reports [] []
    passed_over :
        {id : String} {value : ℕ} {monitored : Map ℕ} {rs : List (Report F)} (info : ContainerJson)
        → source.container_inspect id ≡ ok info
        → ¬ HasChoosingRule match_string info.config rules
        → Reports monitored rs
        → Reports ((id, value) ∷ monitored) rs
    reported :
        {id : String} {value : ℕ} {monitored : Map ℕ} {r : Report F} {rs : List (Report F)}
        (info : ContainerJson)
        → source.container_inspect id ≡ ok info
        → HasChoosingRule match_string info.config rules
        → IsReportOf percent_of float client backend source id r
        → Reports monitored rs
        → Reports ((id, value) ∷ monitored) (r ∷ rs)

  module _ (known : (backend ≡ "prometheus") ⊎ (backend ≡ "influxdb"))
      (healthy : IsHealthy source) where
    report-one :
        (stat : Stat F)
        → (r : Report F) × (report percent_of float client backend source stat ≡ r ∷ [])
    unfolding report
    report-one stat = elim known [
      | inl prometheus ↦ (
        record { stat = stat; sink = gauges_set (send_prometheus float stat) },
        rw (report, prometheus) refl,
      )
      | inr influxdb ↦ (
        record { stat = stat; sink = batches_sent (send_influxdb client stat) },
        rw (report, influxdb) refl,
      )
    ]

    send_container_stats-one :
        (id : String)
        → (a : IsAnswered source id)
        → (r : Report F) × (send_container_stats percent_of float client backend source id
              (some a.stats)
            ≡ ok (r ∷ []))
          × IsReportOf percent_of float client backend source id r
    unfolding send_container_stats send_inspected or_return pointed stat_of
    send_container_stats-one id a =
        let (name, stripped) = strip_slash-ok a.short_info.name a.named in
        let stat : Stat F =
          stat_of percent_of float client backend source a.short name a.short_info.config.image
            a.stats (length healthy.containers) (length healthy.images) (length healthy.volumes)
            (length healthy.networks) in
        let (r, one) = report-one stat in
        let each =
          report-IsReportOf percent_of float client backend source id stat a.short_info a.shortened
            a.short_inspected refl in
        (
          r,
          rw
              (
                send_container_stats, a.shortened, healthy.container_list, a.short_inspected,
                stripped, healthy.image_list, healthy.volume_list, healthy.network_list,
              )
              (rw one refl),
          (rw one at each).0,
        )

    collect_matched-one :
        (id : String)
        → IsAnswered source id
        → (r : Report F) × (collect_matched percent_of float client backend source id true
            ≡ ok (r ∷ []))
          × IsReportOf percent_of float client backend source id r
    unfolding collect_matched collect_lines or_return
    collect_matched-one id a =
        let (r, sent, about) = send_container_stats-one id a in
        (r, rw (collect_matched, a.sampled, a.decoded, sent) refl, about)

    -- Where the engine gives its lists, answers of each monitored container, by its ID and by the short
    -- one, with a name and one statistic, and the rules' expressions compile, a collection for a backend that is known reports each monitored container that
    -- an image rule chooses exactly once, in order, reports no other, and has no error.
    pub collect_stats-Reports :
        (monitored : Map ℕ)
        → All (λ e. IsAnswered source e.0) monitored
        → ((cfg : ContainerConfig) → All (λ e. IsCompiled match_string cfg e.1) rules)
        → (rs : List (Report F)) × (collect_stats percent_of float client backend source
              match_string rules monitored
            ≡ ok (record { errors = []; reports = rs }))
          × Reports monitored rs
    unfolding collect_stats collect_inspected collect_matched
    collect_stats-Reports [] answered compiled = ([], refl, none_left)
    collect_stats-Reports ((id, value) ∷ monitored) (a, answered) compiled =
        let (matched, decided, iff) =
          rule_match_iff match_string a.info.config rules (compiled a.info.config) in
        let (later, went_on, others) = collect_stats-Reports monitored answered compiled in
        elim (Bool-cases matched) [
          | inl hit ↦
              let (r, sent, about) = collect_matched-one id a in
              (
                r ∷ later,
                rw (collect_stats, a.inspected, collect_inspected, decided, hit, sent, went_on)
                    refl,
                reported a.info a.inspected (iff.0 hit) about others,
              )
          | inr missed ↦ (
            later,
            rw
                (
                  collect_stats, a.inspected, collect_inspected, decided, missed, collect_matched,
                  went_on,
                )
                refl,
            passed_over a.info a.inspected (λ chosen. cc (iff.1 chosen, missed)) others,
          )
        ]
