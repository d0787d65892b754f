-- ===== src/App/Examples.antt =====
-- The theorems on the collectors' own steps at concrete inputs.
use qiniu_exporter.App.Backfill.{
  CdnBandwidthCache, LoadError, candidate, fill, load_completed_month_bandwidth, next_chunk,
  segment, usage_batches,
}
use qiniu_exporter.App.Backfill.Caches.{IsCache}
use qiniu_exporter.App.Backfill.Chunks.{Begins}
use qiniu_exporter.App.Backfill.Resumed.{IsResumed, load_completed_month_bandwidth-IsResumed}
use qiniu_exporter.App.Isolation.{
  Round, collect_cdn_monitoring, fail_all, fetch_cdn_metering_batches, isolate, mark_bad, meter,
}
use qiniu_exporter.App.Isolation.Accounts.{accounted}
use qiniu_exporter.App.Isolation.Calls.{Run, before_fetches, collect_cdn_monitoring-Run}
use qiniu_exporter.App.Isolation.Rounds.{
  collect_cdn_monitoring_accounts, fetch_cdn_metering_batches_accounts,
}
use qiniu_exporter.App.Merge.{
  merge_both, merge_cdn_bandwidth_usage, merge_cdn_traffic_usage, zero_cdn_bandwidth_usage,
}
use qiniu_exporter.App.Merge.Joined.{
  IsHigher, MergedRows, merge_cdn_bandwidth_usage-MergedRows, merge_cdn_traffic_usage-IsTotal,
}
use qiniu_exporter.App.Merge.Rows.{JoinedRows}
use qiniu_exporter.App.Usage.{
  CdnMonitoringWindow, CdnUsagePeriodSnapshot, CdnUsageRound, CdnUsageSnapshot,
  build_cdn_daily_traffic, build_cdn_usage_snapshot, hours_of, month_bandwidth, month_traffic,
  today_of,
}
use qiniu_exporter.App.Usage.Built.{build_cdn_usage_snapshot-IsPeriods}
use qiniu_exporter.App.Usage.Contents.{IsPeriods}
use qiniu_exporter.Base.{
  Bool, List, Option, String, [], arith, false, if◌then◌else◌, length, none, refl, some, true, ℕ,
  ◌*◌, ◌+◌, ◌∷◌, ◌≡◌, ◌≤◌,
}
use qiniu_exporter.Base.Calendar.{shanghai}
use qiniu_exporter.Base.Calendar.Layouts.{parse_in_location}
use qiniu_exporter.Base.Floats.Whole.{Whole, fin, whole-OrderLaws, whole_floats}
use qiniu_exporter.Base.Int.{pos}
use qiniu_exporter.Base.Keys.{contains, insert, keys, lookup}
use qiniu_exporter.Base.Result.{Result, err, ok}
use qiniu_exporter.Base.Time.{day, hour, minute, zero_time}
use qiniu_exporter.Cdn.Usage.Totals.{IsTotal, names}
use qiniu_exporter.Cdn.{transport, CdnError, MonitoringResponse, api_error, check_business_code}
use qiniu_exporter.Cdn.Names.{validate_usage_domains}
use qiniu_exporter.Cdn.Select.{fit_axis, within_allowlist}
use qiniu_exporter.Cdn.Series.{add_usage_value, optional_series_value, validate_optional_series}
use qiniu_exporter.Cdn.Usage.{bucket_end, is_valid, parse_usage_points, usage_period_indexes}
use qiniu_exporter.Cdn.Usage.Bandwidth.{
  BandwidthUsageAggregate, DomainBandwidthUsage, aggregate_bandwidth_usage,
}
use qiniu_exporter.Cdn.Usage.Batches.{validate_usage_batches}
use qiniu_exporter.Cdn.Usage.Traffic.{
  DomainTrafficUsage, TrafficUsageAggregate, aggregate_traffic_usage,
}

abbrev five : List String
five = "a" ∷ "b" ∷ "c" ∷ "d" ∷ "e" ∷ []

abbrev later : ℕ
later = zero_time + 600

-- A fetch that fails where the bad domain "c" is among the domains.
abbrev fetch_all_but_c : ℕ → List String → Result CdnError ℕ
fetch_all_but_c n ds = if contains "c" ds then err (api_error (pos 400032)) else ok n

abbrev fresh : Round ℕ
fresh = record { attempts = 0; collected = []; failed = []; bad = [] }

collect_cdn_monitoring_accounts_example :
    accounted "d" (collect_cdn_monitoring fetch_all_but_c five (("b", transport) ∷ [])) ≡ true
collect_cdn_monitoring_accounts_example =
    collect_cdn_monitoring_accounts fetch_all_but_c "d" five (("b", transport) ∷ []) refl

collect_cdn_monitoring-Run_example :
    (calls : List (List String)) × Run fetch_all_but_c
      (collect_cdn_monitoring fetch_all_but_c five (("b", transport) ∷ []))
      (before_fetches fetch_all_but_c five (("b", transport) ∷ []))
      calls
    × ((collect_cdn_monitoring fetch_all_but_c five (("b", transport) ∷ [])).attempts
        ≡ length calls)
    × (length calls ≤ 16)
collect_cdn_monitoring-Run_example =
    collect_cdn_monitoring-Run fetch_all_but_c five (("b", transport) ∷ [])

fetch_cdn_metering_batches_accounts_example :
    accounted "e" (fetch_cdn_metering_batches (λ batch. fetch_all_but_c) five) ≡ true
fetch_cdn_metering_batches_accounts_example =
    fetch_cdn_metering_batches_accounts (λ batch. fetch_all_but_c) "e" five refl

only_c_fails :
    (keys (isolate fetch_all_but_c 5 five fresh).failed ≡ "c" ∷ [])
    × ((isolate fetch_all_but_c 5 five fresh).attempts ≡ 5)
unfolding isolate fail_all mark_bad insert keys
only_c_fails = (refl, refl)

abbrev traffic_row : ℕ → ℕ → DomainTrafficUsage Whole
traffic_row china oversea = record {
  domain = "a";
  china_bytes = fin china;
  oversea_bytes = fin oversea;
  bytes = fin (china + oversea);
  active = true;
}

abbrev traffic : ℕ → ℕ → ℕ → ℕ → TrafficUsageAggregate Whole
traffic from till china oversea = record {
  period_start = from;
  period_end = till;
  bucket_count = 1;
  domains = traffic_row china oversea ∷ [];
  account_bytes = fin (china + oversea);
}

merge_cdn_traffic_usage-IsTotal_example :
    (names whole_floats (traffic_row 1 2 ∷ []) ≡ names whole_floats (traffic_row 3 4 ∷ []))
    × JoinedRows whole_floats (traffic_row 1 2 ∷ []) (traffic_row 3 4 ∷ []) (traffic_row 4 6 ∷ [])
    × IsTotal whole_floats
        (fin 0)
        (names whole_floats (traffic_row 3 4 ∷ []))
        (traffic_row 4 6 ∷ [], fin 10)
    × (zero_time + 1 ≡ zero_time + 1)
    × (zero_time + 3 ≡ zero_time + 3)
    × (2 ≡ 1 + 1)
unfolding merge_cdn_traffic_usage
merge_cdn_traffic_usage-IsTotal_example =
    merge_cdn_traffic_usage-IsTotal whole_floats (traffic (zero_time + 1) (zero_time + 2) 1 2)
      (traffic (zero_time + 2) (zero_time + 3) 3 4)
      {result = record (traffic (zero_time + 1) (zero_time + 3) 4 6) { bucket_count = 2 }} refl

abbrev bandwidth_row : ℕ → ℕ → Bool → DomainBandwidthUsage Whole
bandwidth_row peak at_ active = record {
  domain = "a";
  peak_bits_per_second = fin peak;
  peak_at = at_;
  active = active;
}

abbrev bandwidth : ℕ → ℕ → ℕ → ℕ → DomainBandwidthUsage Whole → BandwidthUsageAggregate Whole
bandwidth from till peak at_ row = record {
  period_start = from;
  period_end = till;
  bucket_count = 1;
  domains = row ∷ [];
  account_peak_bits_per_second = fin peak;
  account_peak_at = at_;
}

merge_cdn_bandwidth_usage-MergedRows_example :
    MergedRows whole_floats
      (bandwidth_row 7 1 true ∷ [])
      (bandwidth_row 9 2 false ∷ [])
      (bandwidth_row 9 2 true ∷ [])
    × IsHigher whole_floats (fin 7, 1) (fin 9, 2) (fin 9, 2)
unfolding merge_cdn_bandwidth_usage merge_both
merge_cdn_bandwidth_usage-MergedRows_example =
    merge_cdn_bandwidth_usage-MergedRows whole_floats whole-OrderLaws
      (bandwidth 1 2 7 1 (bandwidth_row 7 1 true)) (bandwidth 2 3 9 2 (bandwidth_row 9 2 false))
      {result = record (bandwidth 1 3 9 2 (bandwidth_row 9 2 true)) { bucket_count = 2 }}
      (omega arith) (omega arith) (refl, tt) (refl, tt) refl refl refl

-- The cache of another month.
abbrev old_cache : CdnBandwidthCache Whole
old_cache = record {
  month_start = zero_time;
  period_end = zero_time + 30 * day;
  domains = "a" ∷ [];
  aggregate = zero_cdn_bandwidth_usage whole_floats ("a" ∷ []) zero_time;
}

abbrev first_hour_times : List String
first_hour_times =
    "2026-03-01 00:00:00" ∷ "2026-03-01 00:05:00" ∷ "2026-03-01 00:10:00" ∷ "2026-03-01 00:15:00"
    ∷ "2026-03-01 00:20:00" ∷ "2026-03-01 00:25:00" ∷ "2026-03-01 00:30:00" ∷ "2026-03-01 00:35:00"
    ∷ "2026-03-01 00:40:00" ∷ "2026-03-01 00:45:00" ∷ "2026-03-01 00:50:00" ∷ "2026-03-01 00:55:00"
    ∷ []

-- The first hour of a month, of one domain with traffic in China.
abbrev first_hour : MonitoringResponse Whole
first_hour = record {
  code = pos 200;
  times = first_hour_times;
  by_domain =
      (
        "a",
        record {
          china =
              fin 1
              ∷ fin 2
              ∷ fin 3
              ∷ fin 4
              ∷ fin 5
              ∷ fin 6
              ∷ fin 7
              ∷ fin 8
              ∷ fin 9
              ∷ fin 10
              ∷ fin 11
              ∷ fin 12
              ∷ [];
          oversea = [];
        },
      )
      ∷ [];
}

abbrev month_day : ℕ
month_day = 76_530_672_000_000_000_000

-- A source of the first hour.
abbrev hour_source :
    ℕ → ℕ → List String → ℕ → List String → Result CdnError (MonitoringResponse Whole)
hour_source cursor end_at batch attempt domains = ok first_hour

load_completed_month_bandwidth-IsResumed_example :
    (c : CdnBandwidthCache Whole) × (c' : CdnBandwidthCache Whole) × (r : Option
      (Result LoadError (BandwidthUsageAggregate Whole)))
    × (load_completed_month_bandwidth whole_floats hour_source
          (some shanghai)
          (some old_cache)
          month_day
          ("a" ∷ [])
          (month_day + hour)
        ≡ (some c', r))
    × Begins whole_floats old_cache month_day ("a" ∷ []) (month_day + hour) c
    × IsCache whole_floats month_day (month_day + hour) ("a" ∷ []) c'
    × IsResumed whole_floats hour_source (some shanghai) (month_day + hour) c c' r
unfolding zero_cdn_bandwidth_usage
load_completed_month_bandwidth-IsResumed_example =
    load_completed_month_bandwidth-IsResumed whole_floats hour_source (some shanghai) month_day
      (month_day + hour) ("a" ∷ []) old_cache (omega arith) refl

abbrev filled_to : Option (CdnBandwidthCache Whole) → ℕ
filled_to none = 0
filled_to (some c) = c.period_end

abbrev peak_of : Option (Result LoadError (BandwidthUsageAggregate Whole)) → Option Whole
peak_of (some (ok usage)) = some usage.account_peak_bits_per_second
peak_of _ = none

abbrev first_fill :
    Option (CdnBandwidthCache Whole) × Option (Result LoadError (BandwidthUsageAggregate Whole))
first_fill =
    load_completed_month_bandwidth whole_floats hour_source (some shanghai) (some old_cache)
      month_day ("a" ∷ []) (month_day + hour)

-- There the fetch succeeds, and the hour's peak is in the result.
hour_filled : (filled_to first_fill.0 ≡ month_day + hour) × (peak_of first_fill.1 ≡ some (fin 12))
unfolding load_completed_month_bandwidth candidate fill next_chunk segment usage_batches
    fetch_cdn_metering_batches meter isolate merge_cdn_bandwidth_usage merge_both
    zero_cdn_bandwidth_usage aggregate_bandwidth_usage validate_usage_batches usage_period_indexes
    parse_usage_points parse_in_location check_business_code lookup is_valid validate_usage_domains
    within_allowlist bucket_end fit_axis validate_optional_series add_usage_value
    optional_series_value qiniu_exporter.App.batches
hour_filled = (refl, refl)

abbrev first_round : CdnUsageRound Whole
first_round = record {
  bandwidth = (record { domains = "a" ∷ []; response = first_hour }) ∷ [];
  traffic = (record { domains = "a" ∷ []; response = first_hour }) ∷ [];
  data_end = month_day + hour;
}

abbrev first_window : CdnMonitoringWindow
first_window = record {
  safe_before = month_day + hour + 5 * minute;
  today_start = month_day;
  hour_start = month_day;
  hour_end = month_day + hour;
}

abbrev periods_of : Result CdnError (CdnUsageSnapshot Whole) → List (CdnUsagePeriodSnapshot Whole)
periods_of (ok built) = built.periods
periods_of (err e) = []

abbrev first_snapshot : Result CdnError (CdnUsageSnapshot Whole)
first_snapshot =
    build_cdn_usage_snapshot whole_floats first_round []
      (zero_cdn_bandwidth_usage whole_floats ("a" ∷ []) month_day) first_window month_day shanghai
      true true false

build_cdn_usage_snapshot-IsPeriods_example :
    (month_day + hour ≤ month_day + hour + 5 * minute)
    × IsPeriods whole_floats first_round []
        (zero_cdn_bandwidth_usage whole_floats ("a" ∷ []) month_day)
        first_window
        month_day
        shanghai
        true
        true
        false
        (periods_of first_snapshot)
unfolding build_cdn_usage_snapshot hours_of today_of month_traffic month_bandwidth
    build_cdn_daily_traffic aggregate_traffic_usage aggregate_bandwidth_usage validate_usage_batches
    usage_period_indexes parse_usage_points parse_in_location check_business_code lookup is_valid
    validate_usage_domains within_allowlist bucket_end fit_axis validate_optional_series
    add_usage_value optional_series_value
build_cdn_usage_snapshot-IsPeriods_example =
    build_cdn_usage_snapshot-IsPeriods whole_floats first_round []
      (zero_cdn_bandwidth_usage whole_floats ("a" ∷ []) month_day) first_window month_day shanghai
      true true false (omega arith) refl
