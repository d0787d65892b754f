-- ===== src/Cdn/Examples.antt =====
-- The theorems on the CDN package at concrete inputs: two domains, twenty minutes of five-minute
-- points from noon of 2026-03-01 in Shanghai, whole numbers for float64.
use qiniu_exporter.Base.{
  get_elem?, List, String, [], false, length, refl, some, true, ℕ, ◌*◌, ◌+◌, ◌<◌, ◌∷◌, ◌≡◌, ◌≤◌,
}
use qiniu_exporter.Base.Calendar.{shanghai}
use qiniu_exporter.Base.Calendar.Layouts.{monitoring_layout, parse_in_location}
use qiniu_exporter.Base.Floats.Whole.{Whole, fin, whole_floats}
use qiniu_exporter.Base.Int.{pos}
use qiniu_exporter.Base.Keys.{lookup}
use qiniu_exporter.Base.Result.{ok}
use qiniu_exporter.Base.Time.{minute}
use qiniu_exporter.Cdn.{MonitoringResponse, check_business_code, five_minute_bucket}
use qiniu_exporter.Cdn.Names.{validate_domains, validate_usage_domains}
use qiniu_exporter.Cdn.Points.{latest_safe_index}
use qiniu_exporter.Cdn.Points.Choice.{IsSelection, latest_safe_index-IsSelection}
use qiniu_exporter.Cdn.Queries.{TopIpQuery}
use qiniu_exporter.Cdn.Select.{
  BandwidthSample, RequestCountResponse, RequestRateSample, StatusCodeRateSample, fit_axis,
  select_latest_safe_bandwidth, validate_monitoring_response, within_allowlist,
}
use qiniu_exporter.Cdn.Select.Monitoring.{BandwidthRows, select_latest_safe_bandwidth-ok}
use qiniu_exporter.Cdn.Series.{add_usage_value, optional_series_value, validate_optional_series}
use qiniu_exporter.Cdn.Status.{StatusCodeResponse, key_kind, select_latest_safe_status_code_rates}
use qiniu_exporter.Cdn.Status.Keys.{select_latest_safe_status_code_rates-unmixed}
use qiniu_exporter.Cdn.Usage.{
  bucket_end, five_minutes, is_valid, parse_usage_points, slice, usage_period_indexes,
}
use qiniu_exporter.Cdn.Usage.Batches.{UsageBatch, domains_of, validate_usage_batches}
use qiniu_exporter.Cdn.Usage.Coverage.{Covers, usage_period_indexes-Covers}
use qiniu_exporter.Cdn.Usage.Totals.{IsTotal, aggregate_traffic_usage-IsTotal}
use qiniu_exporter.Cdn.Usage.Traffic.{TrafficUsageAggregate, aggregate_traffic_usage}

abbrev noon_at : ℕ
noon_at = 76_530_715_200_000_000_000

abbrev points : List String
points =
    "2026-03-01 12:00:00" ∷ "2026-03-01 12:05:00" ∷ "2026-03-01 12:10:00" ∷ "2026-03-01 12:15:00"
    ∷ []

abbrev analytics_points : List String
analytics_points = "2026-03-01-12-00" ∷ "2026-03-01-12-05" ∷ "2026-03-01-12-10" ∷ []

abbrev domains : List String
domains = "a.example" ∷ "b.example" ∷ []

abbrev response : MonitoringResponse Whole
response = record {
  code = pos 200;
  times = points;
  by_domain =
      ("b.example", record { china = fin 3 ∷ fin 600 ∷ fin 9 ∷ fin 1 ∷ []; oversea = [] }) ∷ [];
}

-- Twelve minutes past noon: the point of 12:05 is the last whose bucket has ended.
abbrev safe : ℕ
safe = noon_at + 12 * minute

abbrev starts_of : List ℕ
starts_of =
    noon_at ∷ (noon_at + 5 * minute) ∷ (noon_at + 10 * minute) ∷ (noon_at + 15 * minute) ∷ []

noon_reads : parse_in_location monitoring_layout shanghai "2026-03-01 12:00:00" ≡ some noon_at
unfolding parse_in_location
noon_reads = refl

latest_safe_index-IsSelection_example :
    IsSelection monitoring_layout shanghai safe points 1 starts_of
unfolding latest_safe_index parse_in_location
latest_safe_index-IsSelection_example =
    latest_safe_index-IsSelection points monitoring_layout safe shanghai refl

select_latest_safe_bandwidth-ok_example :
    (start : ℕ) × (out : List (BandwidthSample Whole)) × (select_latest_safe_bandwidth whole_floats
        response domains safe
        (some shanghai)
      ≡ ok out)
    × BandwidthRows whole_floats response 1 start domains out
    × (get_elem? starts_of 1 ≡ some start)
    × (start + five_minute_bucket ≤ safe)
    × IsSelection monitoring_layout shanghai safe points 1 starts_of
unfolding validate_monitoring_response validate_optional_series check_business_code lookup
    latest_safe_index parse_in_location validate_domains
select_latest_safe_bandwidth-ok_example =
    select_latest_safe_bandwidth-ok whole_floats response domains safe shanghai {index = 1}
      {starts = starts_of} refl

abbrev counts : RequestCountResponse Whole
counts = record {
  code = pos 200;
  points = analytics_points;
  req_count = fin 300 ∷ fin 900 ∷ fin 60 ∷ [];
}

abbrev counts_domain : String
counts_domain = "a.example"

abbrev counts_region : String
counts_region = "china"

abbrev rate : RequestRateSample Whole
rate = record {
  domain = "a.example";
  region = "china";
  requests_per_second = fin 3;
  bucket_start = noon_at + 5 * minute;
  bucket_end = noon_at + 10 * minute;
}

abbrev code_series : List (String × List Whole)
code_series =
    ("404", fin 1 ∷ fin 2 ∷ fin 3 ∷ [])
    ∷ ("200", fin 4 ∷ fin 5 ∷ fin 6 ∷ [])
    ∷ ("4xx", fin 1 ∷ fin 2 ∷ fin 3 ∷ [])
    ∷ []

abbrev status_codes : StatusCodeResponse Whole
status_codes = record { code = pos 200; points = analytics_points; codes_data = some code_series }

select_latest_safe_status_code_rates-unmixed_example : ¬ (
    (out : List (StatusCodeRateSample Whole)) × (select_latest_safe_status_code_rates whole_floats
        status_codes "a.example" "china" safe
        (some shanghai)
      ≡ ok out))
unfolding key_kind lookup
select_latest_safe_status_code_rates-unmixed_example =
    select_latest_safe_status_code_rates-unmixed whole_floats status_codes "a.example" "china" safe
      (some shanghai) code_series "4xx" "404" b'4' refl refl refl refl refl

usage_period_indexes-Covers_example :
    Covers five_minutes (noon_at + 5 * minute) (noon_at + 15 * minute) (slice 1 3 starts_of)
    × (3 ≤ length starts_of)
    × (1 < 3)
unfolding usage_period_indexes bucket_end
usage_period_indexes-Covers_example =
    usage_period_indexes-Covers starts_of five_minutes (noon_at + 5 * minute)
      (noon_at + 15 * minute) shanghai refl

abbrev usage : List (UsageBatch Whole)
usage = record { domains = domains; response = response } ∷ []

abbrev traffic_usage : TrafficUsageAggregate Whole
traffic_usage = record {
  period_start = noon_at + 5 * minute;
  period_end = noon_at + 15 * minute;
  bucket_count = 2;
  domains =
      (record {
        domain = "a.example";
        china_bytes = fin 0;
        oversea_bytes = fin 0;
        bytes = fin 0;
        active = false;
      })
      ∷ (record {
        domain = "b.example";
        china_bytes = fin 609;
        oversea_bytes = fin 0;
        bytes = fin 609;
        active = true;
      })
      ∷ [];
  account_bytes = fin 609;
}

aggregate_traffic_usage-IsTotal_example :
    IsTotal whole_floats (fin 0) (domains_of usage) (traffic_usage.domains, fin 609)
unfolding aggregate_traffic_usage validate_usage_batches usage_period_indexes parse_usage_points
    parse_in_location check_business_code lookup is_valid validate_usage_domains within_allowlist
    bucket_end fit_axis validate_optional_series add_usage_value optional_series_value
aggregate_traffic_usage-IsTotal_example =
    aggregate_traffic_usage-IsTotal whole_floats usage five_minutes (noon_at + 5 * minute)
      (noon_at + 15 * minute) (some shanghai) {result = traffic_usage} refl

abbrev top_query : TopIpQuery
top_query = record {
  domains = domains;
  start_date = "2026-02-01";
  end_date = "2026-03-01";
  region = "china";
}
