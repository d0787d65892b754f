-- ===== src/Cdn/Select.antt =====
-- The selectors of transform.go: one sample for each domain at the latest safe bucket.
pub mod Checked
pub mod Monitoring
pub mod Rates
use qiniu_exporter.Base.{
  Bool, List, Option, String, [], false, if◌then◌else◌, length, none, not, some, true, ℕ, ◌&&◌,
  ◌++◌, ◌+◌, ◌∷◌,
}
use qiniu_exporter.Base.Calendar.{Location}
use qiniu_exporter.Base.Calendar.Layouts.{analytics_layout, monitoring_layout}
use qiniu_exporter.Base.Floats.{Floats}
use qiniu_exporter.Base.Int.{ℤ}
use qiniu_exporter.Base.Keys.{contains, lookup}
use qiniu_exporter.Base.Result.{Result, ok, refuse_if, ◌>>=◌, ◌>>◌}
use qiniu_exporter.Cdn.{
  CdnError, MonitoringRegionSeries, MonitoringResponse, check_business_code, five_minute_bucket,
  max_usage_domains, series_misaligned,
}
use qiniu_exporter.Cdn.Names.{validate_domains, validate_output_identity}
use qiniu_exporter.Cdn.Points.{latest_safe_index}
use qiniu_exporter.Cdn.Series.{
  optional_series_value, validate_optional_series, validate_series, value_at,
}

abbrev pub region_global : String
region_global = "global"

abbrev pub region_china : String
region_china = "china"

abbrev pub region_oversea : String
region_oversea = "oversea"

module _ (F : Type 0) where
  pub record BandwidthSample : Type 0 where
    pub domain : String
    pub region : String
    pub bits_per_second : F
    pub bucket_start : ℕ
    pub bucket_end : ℕ

  pub record TrafficSample : Type 0 where
    pub domain : String
    pub region : String
    pub bytes_per_second : F
    pub bucket_start : ℕ
    pub bucket_end : ℕ

  pub record RequestRateSample : Type 0 where
    pub domain : String
    pub region : String
    pub requests_per_second : F
    pub bucket_start : ℕ
    pub bucket_end : ℕ

  pub record StatusCodeRateSample : Type 0 where
    pub domain : String
    pub region : String
    pub code : String
    pub responses_per_second : F
    pub bucket_start : ℕ
    pub bucket_end : ℕ

  pub record CacheSample : Type 0 where
    pub domain : String
    pub region : String
    pub hit_requests_per_second : F
    pub miss_requests_per_second : F
    pub hit_traffic_bytes_per_second : F
    pub miss_traffic_bytes_per_second : F
    pub request_hit_ratio : F
    pub traffic_hit_ratio : F
    pub request_hit_ratio_valid : Bool
    pub traffic_hit_ratio_valid : Bool
    pub bucket_start : ℕ
    pub bucket_end : ℕ

  pub record RequestCountResponse : Type 0 where
    pub code : ℤ
    pub points : List String
    pub req_count : List F

  pub record HitMissResponse : Type 0 where
    pub code : ℤ
    pub points : List String
    pub hit : List F
    pub miss : List F
    pub traffic_hit : List F
    pub traffic_miss : List F

-- A loop over domains that appends what each gives.
unfoldable pub collect :
    {A B : Type 0} → (A → Result CdnError (List B)) → List A → Result CdnError (List B)
collect f [] = ok []
collect f (d ∷ ds) = do xs ← f d; rest ← collect f ds; ok (xs ++ rest)

-- `for domain := range response.Data`
unfoldable pub within_allowlist :
    {F : Type 0}
    → List String
    → List (String × MonitoringRegionSeries F)
    → Result CdnError (Unit {0})
within_allowlist expected [] = ok tt
within_allowlist expected ((domain, series) ∷ rest) =
    let others = within_allowlist expected rest in
    refuse_if (not (contains domain expected)) series_misaligned >> others

module _ {F : Type 0} (fl : Floats F) where
  -- Both series of a domain against the axis; a domain that the response leaves out is skipped.
  unfoldable pub fit_series : Option (MonitoringRegionSeries F) → ℕ → Result CdnError (Unit {0})
  fit_series none want = ok tt
  fit_series (some series) want =
      validate_optional_series fl series.china want
      >> validate_optional_series fl series.oversea want

  unfoldable pub fit_axis :
      List String → List (String × MonitoringRegionSeries F) → ℕ → Result CdnError (Unit {0})
  unfolding fit_series
  fit_axis [] by_domain want = ok tt
  fit_axis (domain ∷ domains) by_domain want =
      let rest = fit_axis domains by_domain want in
      fit_series (lookup domain by_domain) want >> rest

  unfoldable pub validate_monitoring_response :
      MonitoringResponse F → List String → ℕ → Option Location → Result CdnError (ℕ × List ℕ)
  unfolding within_allowlist fit_axis
  validate_monitoring_response response domains safe_before location = do
    check_business_code response.code
    validate_domains max_usage_domains domains
    within_allowlist domains response.by_domain
    (index, starts) ← latest_safe_index response.times monitoring_layout safe_before location
    fit_axis domains response.by_domain (length starts)
    ok (index, starts)

  -- The two values of a domain at an index, zeros for a domain that the response leaves out.
  unfoldable pub region_values : Option (MonitoringRegionSeries F) → ℕ → Result CdnError (F × F)
  region_values none index = ok (fl.zero_f, fl.zero_f)
  region_values (some series) index = do
    china ← optional_series_value fl series.china index
    oversea ← optional_series_value fl series.oversea index
    ok (china, oversea)

  unfoldable pub bandwidth_sample : String → String → F → ℕ → BandwidthSample F
  bandwidth_sample domain region value start = record {
    domain = domain;
    region = region;
    bits_per_second = value;
    bucket_start = start;
    bucket_end = start + five_minute_bucket;
  }

  unfoldable pub traffic_sample : String → String → F → ℕ → TrafficSample F
  traffic_sample domain region value start = record {
    domain = domain;
    region = region;
    bytes_per_second = fl.over value (fl.of_nat 300);
    bucket_start = start;
    bucket_end = start + five_minute_bucket;
  }

  -- The body of the loop over the domains.
  unfoldable pub bandwidth_pair :
      MonitoringResponse F → ℕ → List ℕ → String → Result CdnError (List (BandwidthSample F))
  unfolding bandwidth_sample region_values
  bandwidth_pair response index starts domain = do
    (china, oversea) ← region_values (lookup domain response.by_domain) index
    start ← value_at starts index
    ok (
        bandwidth_sample domain region_china china start
        ∷ bandwidth_sample domain region_oversea oversea start
        ∷ [])

  unfoldable pub select_latest_safe_bandwidth :
      MonitoringResponse F
      → List String
      → ℕ
      → Option Location
      → Result CdnError (List (BandwidthSample F))
  unfolding bandwidth_pair collect
  select_latest_safe_bandwidth response domains safe_before location = do
    (index, starts) ← validate_monitoring_response response domains safe_before location
    collect (bandwidth_pair response index starts) domains

  -- The body of the loop over the domains.
  unfoldable pub traffic_pair :
      MonitoringResponse F → ℕ → List ℕ → String → Result CdnError (List (TrafficSample F))
  unfolding traffic_sample region_values
  traffic_pair response index starts domain = do
    (china, oversea) ← region_values (lookup domain response.by_domain) index
    start ← value_at starts index
    ok (
        traffic_sample domain region_china china start
        ∷ traffic_sample domain region_oversea oversea start
        ∷ [])

  unfoldable pub select_latest_safe_traffic :
      MonitoringResponse F
      → List String
      → ℕ
      → Option Location
      → Result CdnError (List (TrafficSample F))
  unfolding traffic_pair collect
  select_latest_safe_traffic response domains safe_before location = do
    (index, starts) ← validate_monitoring_response response domains safe_before location
    collect (traffic_pair response index starts) domains

  unfoldable pub select_latest_safe_request_rate :
      RequestCountResponse F
      → String
      → String
      → ℕ
      → Option Location
      → Result CdnError (RequestRateSample F)
  select_latest_safe_request_rate response domain region safe_before location = do
    check_business_code response.code
    validate_output_identity domain region
    (index, starts) ← latest_safe_index response.points analytics_layout safe_before location
    validate_series fl response.req_count (length starts)
    count ← value_at response.req_count index
    start ← value_at starts index
    ok (record {
      domain = domain;
      region = region;
      requests_per_second = fl.over count (fl.of_nat 300);
      bucket_start = start;
      bucket_end = start + five_minute_bucket;
    })

  unfoldable pub select_latest_safe_analytics_bucket_end :
      List String → ℕ → Option Location → Result CdnError ℕ
  select_latest_safe_analytics_bucket_end points safe_before location = do
    (index, starts) ← latest_safe_index points analytics_layout safe_before location
    start ← value_at starts index
    ok (start + five_minute_bucket)

  unfoldable pub nonnegative_ratio : F → F → F × Bool
  nonnegative_ratio numerator other =
      if fl.same numerator fl.zero_f && fl.same other fl.zero_f
      then (fl.zero_f, false)
      else if fl.at_most other numerator
      then (fl.over (fl.of_nat 1) (fl.plus (fl.of_nat 1) (fl.over other numerator)), true)
      else (let ratio = fl.over numerator other in
          (fl.over ratio (fl.plus (fl.of_nat 1) ratio), true))

  unfoldable pub select_latest_safe_cache :
      HitMissResponse F → String → ℕ → Option Location → Result CdnError (CacheSample F)
  unfolding nonnegative_ratio
  select_latest_safe_cache response domain safe_before location = do
    check_business_code response.code
    validate_output_identity domain region_global
    (index, starts) ← latest_safe_index response.points analytics_layout safe_before location
    validate_series fl response.hit (length starts)
    validate_series fl response.miss (length starts)
    validate_series fl response.traffic_hit (length starts)
    validate_series fl response.traffic_miss (length starts)
    hit ← value_at response.hit index
    miss ← value_at response.miss index
    traffic_hit ← value_at response.traffic_hit index
    traffic_miss ← value_at response.traffic_miss index
    start ← value_at starts index
    ok (record {
      domain = domain;
      region = region_global;
      hit_requests_per_second = fl.over hit (fl.of_nat 300);
      miss_requests_per_second = fl.over miss (fl.of_nat 300);
      hit_traffic_bytes_per_second = fl.over traffic_hit (fl.of_nat 300);
      miss_traffic_bytes_per_second = fl.over traffic_miss (fl.of_nat 300);
      request_hit_ratio = (nonnegative_ratio hit miss).0;
      traffic_hit_ratio = (nonnegative_ratio traffic_hit traffic_miss).0;
      request_hit_ratio_valid = (nonnegative_ratio hit miss).1;
      traffic_hit_ratio_valid = (nonnegative_ratio traffic_hit traffic_miss).1;
      bucket_start = start;
      bucket_end = start + five_minute_bucket;
    })
