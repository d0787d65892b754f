-- ===== src/App/Usage/Peaks.antt =====
-- Which usage the periods of a round have.
use qiniu_exporter.App.Merge.{
  merge_cdn_bandwidth_usage, merge_cdn_traffic_usage, zero_cdn_traffic_usage,
}
use qiniu_exporter.App.Usage.{
  CdnMonitoringWindow, CdnUsageRound, month_bandwidth, month_traffic, today_of,
}
use qiniu_exporter.Base.{
  Bool, Bool-cases, List, Option, arith, false, inl, inr, ltb, not, refl, some, subst, sym, true, ℕ,
  ◌<◌, ◌≡◌, ◌≤◌, ◌⊎◌,
}
use qiniu_exporter.Base.Calendar.{Location}
use qiniu_exporter.Base.Floats.{Floats}
use qiniu_exporter.Base.Result.{>>=-eq-ok, ok, ok-injective, refuse_if}
use qiniu_exporter.Cdn.{invalid_input}
use qiniu_exporter.Cdn.Series.{value_at}
use qiniu_exporter.Cdn.Usage.{Granularity, daily, five_minutes}
use qiniu_exporter.Cdn.Usage.Bandwidth.{
  BandwidthUsageAggregate, aggregate_bandwidth_usage, empty_rows, is_five_minutes, peaks,
}
use qiniu_exporter.Cdn.Usage.Batches.{UsageBatch, domains_of, validate_usage_batches}
use qiniu_exporter.Cdn.Usage.Traffic.{TrafficUsageAggregate, aggregate_traffic_usage}

module _ {F : Type 0} (fl : Floats F) where
  pub aggregate_bandwidth_usage-period :
      (batches : List (UsageBatch F)) (g : Granularity) (period_start period_end : ℕ)
      (location : Option Location) {result : BandwidthUsageAggregate F}
      → aggregate_bandwidth_usage fl batches g period_start period_end location ≡ ok result
      → (result.period_start ≡ period_start) × (result.period_end ≡ period_end)
  unfolding aggregate_bandwidth_usage
  aggregate_bandwidth_usage-period batches g period_start period_end location h =
      let (u, e0, h0) = >>=-eq-ok (refuse_if (not (is_five_minutes fl g)) invalid_input) _ h in
      let (v, e1, h1) =
        >>=-eq-ok (validate_usage_batches fl batches g period_start period_end location) _ h0 in
      let (first_point, e2, h2) = >>=-eq-ok (value_at v.starts 0) _ h1 in
      let (q, e3, h3) =
        >>=-eq-ok
          (peaks fl batches v.ranges 0 (empty_rows fl first_point v.domains) fl.zero_f first_point
            v.starts)
          _ h2 in
      subst
        (λ (r : BandwidthUsageAggregate F).
          (r.period_start ≡ period_start) × (r.period_end ≡ period_end))
        (ok-injective h3) (refl, refl)

  -- Today has usage exactly where the data reaches today, and then both are those of the round from
  -- today's start to the end of the data.
  abbrev pub IsToday :
      CdnUsageRound F
      → CdnMonitoringWindow
      → Location
      → TrafficUsageAggregate F
      → BandwidthUsageAggregate F
      → Bool
      → Type 0
  IsToday round window location traffic bandwidth has =
      ((has ≡ true)
        × (window.today_start < window.safe_before)
        × (aggregate_traffic_usage fl round.traffic five_minutes window.today_start
              window.safe_before (some location)
            ≡ ok traffic)
        × (aggregate_bandwidth_usage fl round.bandwidth five_minutes window.today_start
              window.safe_before (some location)
            ≡ ok bandwidth))
      ⊎ ((has ≡ false)
          × (window.safe_before ≤ window.today_start)
          × (traffic ≡ zero_cdn_traffic_usage fl (domains_of round.traffic) window.today_start))

  pub today_of-IsToday :
      (round : CdnUsageRound F) (window : CdnMonitoringWindow) (location : Location)
      {traffic : TrafficUsageAggregate F} {bandwidth : BandwidthUsageAggregate F} {has : Bool}
      → today_of fl round window location ≡ ok (traffic, bandwidth, has)
      → IsToday round window location traffic bandwidth has
  unfolding today_of
  today_of-IsToday round window location h =
      elim (Bool-cases (ltb window.today_start window.safe_before)) [
        | inl e ↦
            let (t, q, h1) =
              >>=-eq-ok
                (aggregate_traffic_usage fl round.traffic five_minutes window.today_start
                  window.safe_before (some location))
                _ (rw e at h) in
            let (b, q', h2) =
              >>=-eq-ok
                (aggregate_bandwidth_usage fl round.bandwidth five_minutes window.today_start
                  window.safe_before (some location))
                _ h1 in
            subst
              (λ (r : TrafficUsageAggregate F × BandwidthUsageAggregate F × Bool).
                IsToday round window location r.0 r.1 r.2)
              (ok-injective h2) (inl (refl, ground arith, q, q'))
        | inr e ↦
            subst
              (λ (r : TrafficUsageAggregate F × BandwidthUsageAggregate F × Bool).
                IsToday round window location r.0 r.1 r.2)
              (ok-injective (rw e at h)) (inr (refl, ground arith, refl))
      ]

  -- The month's bandwidth is today's where it is not asked for, or else that of the completed days,
  -- joined with today's if today has one.
  abbrev pub IsMonthPeak :
      BandwidthUsageAggregate F
      → BandwidthUsageAggregate F
      → Bool
      → Bool
      → BandwidthUsageAggregate F
      → Type 0
  IsMonthPeak prior today_bandwidth has_today asked month =
      ((asked ≡ false) × (month ≡ today_bandwidth))
      ⊎ ((asked ≡ true) × (has_today ≡ false) × (month ≡ prior))
      ⊎ ((asked ≡ true)
          × (has_today ≡ true)
          × (merge_cdn_bandwidth_usage fl prior today_bandwidth ≡ ok month))

  pub month_bandwidth-IsMonthPeak :
      (prior today_bandwidth : BandwidthUsageAggregate F) (has_today asked : Bool)
      {month : BandwidthUsageAggregate F}
      → month_bandwidth fl prior today_bandwidth has_today asked ≡ ok month
      → IsMonthPeak prior today_bandwidth has_today asked month
  unfolding month_bandwidth
  month_bandwidth-IsMonthPeak prior today_bandwidth has_today false h =
      inl (refl, sym (ok-injective h))
  month_bandwidth-IsMonthPeak prior today_bandwidth false true h =
      inr (inl (refl, refl, sym (ok-injective h)))
  month_bandwidth-IsMonthPeak prior today_bandwidth true true h = inr (inr (refl, refl, h))

  -- The month's traffic is today's where the month starts today, or else that of the days before
  -- today joined with today's.
  abbrev pub IsMonthTraffic :
      List (UsageBatch F)
      → ℕ
      → CdnMonitoringWindow
      → Location
      → TrafficUsageAggregate F
      → TrafficUsageAggregate F
      → Type 0
  IsMonthTraffic prior_month month_start window location today_traffic month =
      ((window.today_start ≤ month_start) × (month ≡ today_traffic))
      ⊎ ((prior : TrafficUsageAggregate F) × (month_start < window.today_start)
          × (aggregate_traffic_usage fl prior_month daily month_start window.today_start
                (some location)
              ≡ ok prior)
          × (merge_cdn_traffic_usage fl prior today_traffic ≡ ok month))

  pub month_traffic-IsMonthTraffic :
      (prior_month : List (UsageBatch F)) (today_traffic : TrafficUsageAggregate F)
      (month_start : ℕ) (window : CdnMonitoringWindow) (location : Location)
      (include_month_traffic : Bool) {month : TrafficUsageAggregate F}
      → include_month_traffic ≡ true
      → month_traffic fl prior_month today_traffic month_start window location include_month_traffic
        ≡ ok month
      → IsMonthTraffic prior_month month_start window location today_traffic month
  unfolding month_traffic
  month_traffic-IsMonthTraffic prior_month today_traffic month_start window location false t h = cc
  month_traffic-IsMonthTraffic prior_month today_traffic month_start window location true t h =
      elim (Bool-cases (ltb month_start window.today_start)) [
        | inl e ↦
            let (prior, q, h1) =
              >>=-eq-ok
                (aggregate_traffic_usage fl prior_month daily month_start window.today_start
                  (some location))
                _ (rw e at h) in
            inr (prior, ground arith, q, h1)
        | inr e ↦ inl (ground arith, sym (ok-injective (rw e at h)))
      ]
