-- ===== src/App/Usage/Periods.antt =====
-- Which periods the usage of a round covers.
use qiniu_exporter.App.{batches}
use qiniu_exporter.App.Merge.{merge_cdn_traffic_usage, zero_cdn_traffic_usage}
use qiniu_exporter.App.Merge.Joined.{merge_cdn_traffic_usage-IsTotal}
use qiniu_exporter.App.Usage.{CdnMonitoringWindow, CdnUsageRound, month_traffic, today_of}
use qiniu_exporter.Base.{
  Bool, Bool-cases, List, Option, ap, arith, false, if◌then◌else◌, inl, inr, ltb, refl, some, subst,
  sym, true, ℕ, ◌∙◌, ◌≡◌, ◌≤◌,
}
use qiniu_exporter.Base.Calendar.{Location}
use qiniu_exporter.Base.Floats.{Floats}
use qiniu_exporter.Base.Result.{>>=-eq-ok, ok, ok-injective}
use qiniu_exporter.Cdn.Usage.{Granularity, daily, five_minutes}
use qiniu_exporter.Cdn.Usage.Bandwidth.{BandwidthUsageAggregate, aggregate_bandwidth_usage}
use qiniu_exporter.Cdn.Usage.Batches.{UsageBatch, validate_usage_batches}
use qiniu_exporter.Cdn.Usage.Traffic.{
  TrafficUsageAggregate, aggregate_traffic_usage, traffic_of_batches,
}

module _ {F : Type 0} (fl : Floats F) where
  pub aggregate_traffic_usage-period :
      (batches : List (UsageBatch F)) (g : Granularity) (period_start period_end : ℕ)
      (location : Option Location) {result : TrafficUsageAggregate F}
      → aggregate_traffic_usage fl batches g period_start period_end location ≡ ok result
      → (result.period_start ≡ period_start) × (result.period_end ≡ period_end)
  unfolding aggregate_traffic_usage
  aggregate_traffic_usage-period batches g period_start period_end location h =
      let (v, e1, h1) =
        >>=-eq-ok (validate_usage_batches fl batches g period_start period_end location) _ h in
      let (q, e2, h2) = >>=-eq-ok (traffic_of_batches fl fl.zero_f batches v.ranges) _ h1 in
      subst
        (λ (r : TrafficUsageAggregate F).
          (r.period_start ≡ period_start) × (r.period_end ≡ period_end))
        (ok-injective h2) (refl, refl)

  merge_cdn_traffic_usage-period :
      (prior today_traffic : TrafficUsageAggregate F) {result : TrafficUsageAggregate F}
      → merge_cdn_traffic_usage fl prior today_traffic ≡ ok result
      → (result.period_start ≡ prior.period_start) × (result.period_end ≡ today_traffic.period_end)
  merge_cdn_traffic_usage-period prior today_traffic h =
      let joined = merge_cdn_traffic_usage-IsTotal fl prior today_traffic h in (joined.3, joined.4)

  month_traffic-period :
      (prior_month : List (UsageBatch F)) (today_traffic : TrafficUsageAggregate F)
      (month_start : ℕ) (window : CdnMonitoringWindow) (location : Location)
      {result : TrafficUsageAggregate F}
      → month_start ≤ window.today_start
      → today_traffic.period_start ≡ window.today_start
      → month_traffic fl prior_month today_traffic month_start window location true ≡ ok result
      → (result.period_start ≡ month_start) × (result.period_end ≡ today_traffic.period_end)
  unfolding month_traffic
  month_traffic-period prior_month today_traffic month_start window location le starts h =
      elim (Bool-cases (ltb month_start window.today_start)) [
        | inl e ↦
            let (prior, q, h1) =
              >>=-eq-ok
                (aggregate_traffic_usage fl prior_month daily month_start window.today_start
                  (some location))
                _ (rw e at h) in
            let (s, t) = merge_cdn_traffic_usage-period prior today_traffic h1 in
            (
              s
                  ∙ (aggregate_traffic_usage-period prior_month daily month_start window.today_start
                      (some location) q).0,
              t,
            )
        | inr e ↦
            let same : today_traffic ≡ _ = ok-injective (rw e at h) in
            let first : window.today_start ≡ month_start = ground arith in
            (
              ap (λ (r : TrafficUsageAggregate F). r.period_start) (sym same) ∙ starts ∙ first,
              ap (λ (r : TrafficUsageAggregate F). r.period_end) (sym same),
            )
      ]

  pub month_included-period :
      (include_month_traffic : Bool) (prior_month : List (UsageBatch F))
      (today_traffic : TrafficUsageAggregate F) (month_start : ℕ) (window : CdnMonitoringWindow)
      (location : Location) {result : TrafficUsageAggregate F}
      → include_month_traffic ≡ true
      → month_start ≤ window.today_start
      → today_traffic.period_start ≡ window.today_start
      → month_traffic fl prior_month today_traffic month_start window location include_month_traffic
        ≡ ok result
      → (result.period_start ≡ month_start) × (result.period_end ≡ today_traffic.period_end)
  month_included-period true prior_month today_traffic month_start window location t le starts h =
      month_traffic-period prior_month today_traffic month_start window location le starts h
  month_included-period false prior_month today_traffic month_start window location t le starts h =
      cc

  pub today_of-period :
      (round : CdnUsageRound F) (window : CdnMonitoringWindow) (location : Location)
      {traffic : TrafficUsageAggregate F} {bandwidth : BandwidthUsageAggregate F} {has : Bool}
      → today_of fl round window location ≡ ok (traffic, bandwidth, has)
      → (traffic.period_start ≡ window.today_start)
        × (traffic.period_end ≡ (
            if ltb window.today_start window.safe_before
            then window.safe_before
            else window.today_start))
  unfolding today_of zero_cdn_traffic_usage
  today_of-period round window location {traffic = traffic} h =
      elim (Bool-cases (ltb window.today_start window.safe_before)) [
        | inl e ↦
            let (t, q, h1) =
              >>=-eq-ok
                (aggregate_traffic_usage fl round.traffic five_minutes window.today_start
                  window.safe_before (some location))
                _ (rw e at h) in
            let (b, q', h2) =
              >>=-eq-ok
                (aggregate_bandwidth_usage fl round.bandwidth five_minutes window.today_start
                  window.safe_before (some location))
                _ h1 in
            let same : t ≡ traffic = ground arith in
            let (s, f) =
              aggregate_traffic_usage-period round.traffic five_minutes window.today_start
                window.safe_before (some location) q in
            rw e (
              ap (λ (r : TrafficUsageAggregate F). r.period_start) (sym same) ∙ s,
              ap (λ (r : TrafficUsageAggregate F). r.period_end) (sym same) ∙ f,
            )
        | inr e ↦
            let same = ok-injective (rw e at h) in
            rw e (
              ap
                  (λ (r : TrafficUsageAggregate F × BandwidthUsageAggregate F × Bool).
                    r.0.period_start)
                  (sym same),
              ap
                  (λ (r : TrafficUsageAggregate F × BandwidthUsageAggregate F × Bool).
                    r.0.period_end)
                  (sym same),
            )
      ]
