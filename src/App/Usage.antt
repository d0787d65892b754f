-- ===== src/App/Usage.antt =====
-- `buildCDNUsageSnapshot` and `buildCDNDailyTraffic` of cdn.go: the periods that one round of
-- monitoring data gives. The start of the month is an argument, a function of the window's day; a
-- day of the daily traffic is the instant it starts at, in place of its text.
pub mod Periods
pub mod Peaks
pub mod Contents
pub mod Built
use qiniu_exporter.App.Merge.{
  merge_cdn_bandwidth_usage, merge_cdn_traffic_usage, zero_cdn_traffic_usage,
}
use qiniu_exporter.Base.{
  Bool, List, [], false, if◌then◌else◌, length, ltb, not, some, suc, true, zero, ℕ, ◌%◌, ◌&&◌, ◌++◌,
  ◌+◌, ◌-◌, ◌/◌, ◌==◌, ◌||◌, ◌∷◌,
}
use qiniu_exporter.Base.Calendar.{Location}
use qiniu_exporter.Base.Floats.{Floats}
use qiniu_exporter.Base.Result.{Result, ok, refuse_if, ◌>>=◌, ◌>>◌}
use qiniu_exporter.Base.Time.{day, hour, is_zero_time, zero_time}
use qiniu_exporter.Cdn.{CdnError, invalid_input}
use qiniu_exporter.Cdn.Usage.{daily, five_minutes}
use qiniu_exporter.Cdn.Usage.Bandwidth.{BandwidthUsageAggregate, aggregate_bandwidth_usage}
use qiniu_exporter.Cdn.Usage.Batches.{UsageBatch, domains_of}
use qiniu_exporter.Cdn.Usage.Traffic.{TrafficUsageAggregate, aggregate_traffic_usage}

pub record CdnMonitoringWindow : Type 0 where
  pub safe_before : ℕ
  pub today_start : ℕ
  pub hour_start : ℕ
  pub hour_end : ℕ

pub data Period : Type 0 where
  last_complete_hour today_so_far current_month : Period

module _ (F : Type 0) where
  pub record CdnUsageRound : Type 0 where
    pub bandwidth : List (UsageBatch F)
    pub traffic : List (UsageBatch F)
    pub data_end : ℕ

  pub record CdnUsagePeriodSnapshot : Type 0 where
    pub period : Period
    pub traffic : TrafficUsageAggregate F
    pub bandwidth : BandwidthUsageAggregate F
    pub has_bandwidth : Bool
    pub complete : Bool

  pub record CdnUsageSnapshot : Type 0 where
    pub periods : List CdnUsagePeriodSnapshot
    pub daily_traffic : List (ℕ × F)

-- `round.DataEnd.In(location).Truncate(time.Hour)`; Go's zero time starts an hour.
unfoldable pub hours_of : CdnMonitoringWindow → ℕ → CdnMonitoringWindow
hours_of window data_end = record window {
  safe_before = data_end;
  hour_end = data_end - data_end % hour;
  hour_start = data_end - data_end % hour - hour;
}

module _ {F : Type 0} (fl : Floats F) where
  abbrev no_bandwidth : BandwidthUsageAggregate F
  no_bandwidth = record {
    period_start = zero_time;
    period_end = zero_time;
    bucket_count = 0;
    domains = [];
    account_peak_bits_per_second = fl.zero_f;
    account_peak_at = zero_time;
  }

  -- The loop of `buildCDNDailyTraffic`, n days from `start` on.
  unfoldable pub days_from : List (UsageBatch F) → Location → ℕ → ℕ → Result CdnError (List (ℕ × F))
  days_from prior_month location start zero = ok []
  days_from prior_month location start (suc n) = do
    usage ← aggregate_traffic_usage fl prior_month daily start (start + day) (some location)
    rest ← days_from prior_month location (start + day) n
    ok ((start, usage.account_bytes) ∷ rest)

  -- The days before today are those whose start is before today's.
  unfoldable pub build_cdn_daily_traffic :
      List (UsageBatch F)
      → TrafficUsageAggregate F
      → ℕ
      → ℕ
      → Location
      → Result CdnError (List (ℕ × F))
  unfolding days_from
  build_cdn_daily_traffic prior_month today_usage month_start today_start location = do
    days ←
        days_from prior_month location month_start ((today_start - month_start + (day - 1)) / day)
    ok (days ++ (today_start, today_usage.account_bytes) ∷ [])

  -- Today's traffic and bandwidth, and whether there is a bandwidth.
  unfoldable pub today_of :
      CdnUsageRound F
      → CdnMonitoringWindow
      → Location
      → Result CdnError (TrafficUsageAggregate F × BandwidthUsageAggregate F × Bool)
  today_of round window location =
      if ltb window.today_start window.safe_before
      then (do
        traffic ←
            aggregate_traffic_usage fl round.traffic five_minutes window.today_start
              window.safe_before (some location)
        bandwidth ←
            aggregate_bandwidth_usage fl round.bandwidth five_minutes window.today_start
              window.safe_before (some location)
        ok (traffic, bandwidth, true))
      else ok (
        zero_cdn_traffic_usage fl (domains_of round.traffic) window.today_start,
        no_bandwidth,
        false,
      )

  unfoldable pub month_traffic :
      List (UsageBatch F)
      → TrafficUsageAggregate F
      → ℕ
      → CdnMonitoringWindow
      → Location
      → Bool
      → Result CdnError (TrafficUsageAggregate F)
  month_traffic prior_month today_traffic month_start window location include_month_traffic =
      if include_month_traffic && ltb month_start window.today_start
      then (do
        prior ←
            aggregate_traffic_usage fl prior_month daily month_start window.today_start
              (some location)
        merge_cdn_traffic_usage fl prior today_traffic)
      else ok today_traffic

  unfoldable pub month_bandwidth :
      BandwidthUsageAggregate F
      → BandwidthUsageAggregate F
      → Bool
      → Bool
      → Result CdnError (BandwidthUsageAggregate F)
  month_bandwidth prior today_bandwidth has_today include_month_bandwidth =
      if include_month_bandwidth
      then (if has_today then merge_cdn_bandwidth_usage fl prior today_bandwidth else ok prior)
      else ok today_bandwidth

  unfoldable pub build_cdn_usage_snapshot :
      CdnUsageRound F
      → List (UsageBatch F)
      → BandwidthUsageAggregate F
      → CdnMonitoringWindow
      → ℕ
      → Location
      → Bool
      → Bool
      → Bool
      → Result CdnError (CdnUsageSnapshot F)
  build_cdn_usage_snapshot round prior_month prior_bandwidth window month_start location complete
        include_month_traffic include_month_bandwidth =
      do
        refuse_if (length round.bandwidth == 0 || length round.traffic == 0) invalid_input
        refuse_if (is_zero_time round.data_end || ltb window.safe_before round.data_end)
            invalid_input
        hour_traffic ←
            aggregate_traffic_usage fl round.traffic five_minutes
              (hours_of window round.data_end).hour_start (hours_of window round.data_end).hour_end
              (some location)
        hour_bandwidth ←
            aggregate_bandwidth_usage fl round.bandwidth five_minutes
              (hours_of window round.data_end).hour_start (hours_of window round.data_end).hour_end
              (some location)
        (today_traffic, today_bandwidth, has_today) ←
            today_of round (hours_of window round.data_end) location
        month ←
            month_traffic prior_month today_traffic month_start (hours_of window round.data_end)
              location include_month_traffic
        peak ← month_bandwidth prior_bandwidth today_bandwidth has_today include_month_bandwidth
        daily_traffic ←
            (if complete && include_month_traffic
              then build_cdn_daily_traffic prior_month today_traffic month_start window.today_start
                  location
              else ok [])
        ok (record {
          periods =
              (record {
                period = last_complete_hour;
                traffic = hour_traffic;
                bandwidth = hour_bandwidth;
                has_bandwidth = true;
                complete = complete;
              })
              ∷ (record {
                period = today_so_far;
                traffic = today_traffic;
                bandwidth = today_bandwidth;
                has_bandwidth = has_today;
                complete = complete;
              })
              ∷ (if include_month_traffic
                  then (record {
                    period = current_month;
                    traffic = month;
                    bandwidth = peak;
                    has_bandwidth = include_month_bandwidth && not (peak.bucket_count == 0);
                    complete = complete;
                  })
                    ∷ []
                  else []);
          daily_traffic = daily_traffic;
        })
