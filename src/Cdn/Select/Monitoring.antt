-- ===== src/Cdn/Select/Monitoring.antt =====
-- What the bandwidth and traffic selectors promise of their samples.
use qiniu_exporter.Base.{
  All, List, String, [], get_elem?, length, refl, some, ℕ, ◌+◌, ◌<◌, ◌∷◌, ◌≡◌, ◌≤◌,
}
use qiniu_exporter.Base.Calendar.{Location}
use qiniu_exporter.Base.Calendar.Layouts.{monitoring_layout}
use qiniu_exporter.Base.Floats.{Floats}
use qiniu_exporter.Base.Keys.{lookup}
use qiniu_exporter.Base.Result.{ok}
use qiniu_exporter.Cdn.{MonitoringResponse, five_minute_bucket}
use qiniu_exporter.Cdn.Points.Choice.{IsSelection}
use qiniu_exporter.Cdn.Select.{
  BandwidthSample, TrafficSample, bandwidth_pair, bandwidth_sample, collect, fit_series,
  region_china, region_oversea, select_latest_safe_bandwidth, select_latest_safe_traffic,
  traffic_pair, traffic_sample, validate_monitoring_response,
}
use qiniu_exporter.Cdn.Select.Checked.{
  IsChecked-start, RegionValues, region_values-RegionValues, region_values-ok,
  validate_monitoring_response-IsChecked,
}
use qiniu_exporter.Cdn.Series.{value_at}

module _ {F : Type 0} (fl : Floats F) where
  -- Two samples for each domain, in the order of the domains.
  abbrev pub BandwidthRows :
      MonitoringResponse F → ℕ → ℕ → List String → List (BandwidthSample F) → Type 0
  BandwidthRows response index start [] [] = Unit
  BandwidthRows response index start (d ∷ ds) (c ∷ o ∷ rest) =
      (c.domain ≡ d)
      × (o.domain ≡ d)
      × (c.region ≡ region_china)
      × (o.region ≡ region_oversea)
      × RegionValues fl (lookup d response.by_domain) index c.bits_per_second o.bits_per_second
      × (c.bucket_start ≡ start)
      × (o.bucket_start ≡ start)
      × (c.bucket_end ≡ start + five_minute_bucket)
      × (o.bucket_end ≡ start + five_minute_bucket)
      × BandwidthRows response index start ds rest
  BandwidthRows response index start _ _ = ⊥

  -- The same of traffic, where a value is the series' value over the seconds of a bucket.
  abbrev pub TrafficRows :
      MonitoringResponse F → ℕ → ℕ → List String → List (TrafficSample F) → Type 0
  TrafficRows response index start [] [] = Unit
  TrafficRows response index start (d ∷ ds) (c ∷ o ∷ rest) =
      (c.domain ≡ d)
      × (o.domain ≡ d)
      × (c.region ≡ region_china)
      × (o.region ≡ region_oversea)
      × ((china : F) × (oversea : F) × RegionValues fl (lookup d response.by_domain) index china
            oversea
          × (c.bytes_per_second ≡ fl.over china (fl.of_nat 300))
          × (o.bytes_per_second ≡ fl.over oversea (fl.of_nat 300)))
      × (c.bucket_start ≡ start)
      × (o.bucket_start ≡ start)
      × (c.bucket_end ≡ start + five_minute_bucket)
      × (o.bucket_end ≡ start + five_minute_bucket)
      × TrafficRows response index start ds rest
  TrafficRows response index start _ _ = ⊥

  module _ (response : MonitoringResponse F) (index start : ℕ) (starts : List ℕ)
      (at_index : value_at starts index ≡ ok start) (lt : index < length starts) where
    bandwidth_total :
        (ds : List String)
        → All (λ d. fit_series fl (lookup d response.by_domain) (length starts) ≡ ok tt) ds
        → (out : List (BandwidthSample F)) × (collect (bandwidth_pair fl response index starts) ds
            ≡ ok out)
          × BandwidthRows response index start ds out
    unfolding collect bandwidth_pair
    bandwidth_total [] h = ([], refl, tt)
    bandwidth_total (d ∷ ds) (fit, h) =
        let ((c, o), e) =
          region_values-ok fl (lookup d response.by_domain) (length starts) index fit lt in
        let values = region_values-RegionValues fl (lookup d response.by_domain) index e in
        let (rest, e2, rows) = bandwidth_total ds h in
        (
          bandwidth_sample fl d region_china c start
              ∷ bandwidth_sample fl d region_oversea o start
              ∷ rest,
          rw (e, at_index, e2),
          (refl, refl, refl, refl, values, refl, refl, refl, refl, rows),
        )

    traffic_total :
        (ds : List String)
        → All (λ d. fit_series fl (lookup d response.by_domain) (length starts) ≡ ok tt) ds
        → (out : List (TrafficSample F)) × (collect (traffic_pair fl response index starts) ds
            ≡ ok out)
          × TrafficRows response index start ds out
    unfolding collect traffic_pair
    traffic_total [] h = ([], refl, tt)
    traffic_total (d ∷ ds) (fit, h) =
        let ((c, o), e) =
          region_values-ok fl (lookup d response.by_domain) (length starts) index fit lt in
        let values = region_values-RegionValues fl (lookup d response.by_domain) index e in
        let (rest, e2, rows) = traffic_total ds h in
        (
          traffic_sample fl d region_china c start
              ∷ traffic_sample fl d region_oversea o start
              ∷ rest,
          rw (e, at_index, e2),
          (refl, refl, refl, refl, (c, o, values, refl, refl), refl, refl, refl, refl, rows),
        )

  -- A checked response: its samples are these, and the bucket ends by `safe_before`.
  module _ (response : MonitoringResponse F) (domains : List String) (safe_before : ℕ)
      (location : Location) where
    -- A response that the checks accept never fails later, by an index out of range or otherwise:
    -- the result is two samples for each domain in order, of China and of overseas, all of the bucket
    -- that starts at the point of the selected index, which is the newest that ends by
    -- `safe_before`, and ends five minutes later; a value is the series' own at that index, or zero
    -- where the domain or the series is left out.
    pub select_latest_safe_bandwidth-ok :
        {index : ℕ} {starts : List ℕ}
        → validate_monitoring_response fl response domains safe_before (some location)
          ≡ ok (index, starts)
        → (start : ℕ) × (out : List (BandwidthSample F)) × (select_latest_safe_bandwidth fl response
              domains safe_before
              (some location)
            ≡ ok out)
          × BandwidthRows response index start domains out
          × (get_elem? starts index ≡ some start)
          × (start + five_minute_bucket ≤ safe_before)
          × IsSelection monitoring_layout location safe_before response.times index starts
    unfolding select_latest_safe_bandwidth
    select_latest_safe_bandwidth-ok {index = index} {starts = starts} h =
        let c = validate_monitoring_response-IsChecked fl response domains safe_before location h in
        let (start, chosen, e, lt, le) = IsChecked-start fl c in
        let (out, made, rows) =
          bandwidth_total response index start starts e lt domains c.fitting in
        (start, out, rw h made, rows, chosen, le, c.selection)

    -- The same of traffic, where a sample is the series' value over the 300 seconds of a bucket.
    pub select_latest_safe_traffic-ok :
        {index : ℕ} {starts : List ℕ}
        → validate_monitoring_response fl response domains safe_before (some location)
          ≡ ok (index, starts)
        → (start : ℕ) × (out : List (TrafficSample F)) × (select_latest_safe_traffic fl response
              domains safe_before
              (some location)
            ≡ ok out)
          × TrafficRows response index start domains out
          × (get_elem? starts index ≡ some start)
          × (start + five_minute_bucket ≤ safe_before)
          × IsSelection monitoring_layout location safe_before response.times index starts
    unfolding select_latest_safe_traffic
    select_latest_safe_traffic-ok {index = index} {starts = starts} h =
        let c = validate_monitoring_response-IsChecked fl response domains safe_before location h in
        let (start, chosen, e, lt, le) = IsChecked-start fl c in
        let (out, made, rows) = traffic_total response index start starts e lt domains c.fitting in
        (start, out, rw h made, rows, chosen, le, c.selection)
