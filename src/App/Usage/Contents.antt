-- ===== src/App/Usage/Contents.antt =====
-- What a usage snapshot lists: the periods with their labels, their bounds and what their usage is.
use qiniu_exporter.App.Usage.{
  CdnMonitoringWindow, CdnUsagePeriodSnapshot, CdnUsageRound, current_month, last_complete_hour,
  today_so_far,
}
use qiniu_exporter.App.Usage.Peaks.{IsMonthPeak, IsMonthTraffic, IsToday}
use qiniu_exporter.Base.{
  All, Bool, List, [], false, if◌then◌else◌, length, ltb, not, refl, some, true, ℕ, ◌&&◌, ◌+◌, ◌-◌,
  ◌<◌, ◌==◌, ◌∷◌, ◌≡◌, ◌≤◌,
}
use qiniu_exporter.Base.Calendar.{Location}
use qiniu_exporter.Base.Floats.{Floats}
use qiniu_exporter.Base.Result.{ok}
use qiniu_exporter.Base.Time.{hour}
use qiniu_exporter.Cdn.Usage.{five_minutes}
use qiniu_exporter.Cdn.Usage.Bandwidth.{BandwidthUsageAggregate, aggregate_bandwidth_usage}
use qiniu_exporter.Cdn.Usage.Batches.{UsageBatch}
use qiniu_exporter.Cdn.Usage.Traffic.{aggregate_traffic_usage}

pub length-if :
    {A : Type 0} (b : Bool) (x : A) → length (if b then x ∷ [] else []) ≡ (if b then 1 else 0)
length-if true x = refl
length-if false x = refl

pub All-if :
    {A : Type 0} (P : A → Type 0) (b : Bool) (x : A)
    → (b ≡ true → P x)
    → All P (if b then x ∷ [] else [])
All-if P true x p = (p refl, tt)
All-if P false x p = tt

module _ {F : Type 0} (fl : Floats F) where
  -- The period is the month's: its traffic from the month's start to the end of today's, and its
  -- bandwidth from the completed days and today's.
  pub record IsMonth (prior_month : List (UsageBatch F))
      (prior_bandwidth : BandwidthUsageAggregate F) (window : CdnMonitoringWindow) (month_start : ℕ)
      (location : Location) (complete include_month_bandwidth : Bool)
      (so_far m : CdnUsagePeriodSnapshot F) : Type 0 where
    pub labelled : m.period ≡ current_month
    pub from_month : m.traffic.period_start ≡ month_start
    pub till_today : m.traffic.period_end ≡ so_far.traffic.period_end
    pub joined : IsMonthTraffic fl prior_month month_start window location so_far.traffic m.traffic
    pub peak :
        IsMonthPeak fl prior_bandwidth so_far.bandwidth so_far.has_bandwidth include_month_bandwidth
          m.bandwidth
    pub peak_listed :
        m.has_bandwidth ≡ (include_month_bandwidth && not (m.bandwidth.bucket_count == 0))
    pub marked : m.complete ≡ complete

  -- The periods of a snapshot: the last complete hour, today, and the month where it is included.
  pub record IsPeriods (round : CdnUsageRound F) (prior_month : List (UsageBatch F))
      (prior_bandwidth : BandwidthUsageAggregate F) (window : CdnMonitoringWindow) (month_start : ℕ)
      (location : Location) (complete include_month_traffic include_month_bandwidth : Bool)
      (periods : List (CdnUsagePeriodSnapshot F)) : Type 0 where
    pub last_hour : CdnUsagePeriodSnapshot F
    pub so_far : CdnUsagePeriodSnapshot F
    pub rest : List (CdnUsagePeriodSnapshot F)
    pub listed : periods ≡ last_hour ∷ so_far ∷ rest
    pub labels : (last_hour.period ≡ last_complete_hour) × (so_far.period ≡ today_so_far)
    pub marked : (last_hour.complete ≡ complete) × (so_far.complete ≡ complete)
    pub hour_complete : last_hour.traffic.period_end ≤ round.data_end
    pub hour_latest : round.data_end < last_hour.traffic.period_end + hour
    pub hour_whole : last_hour.traffic.period_start ≡ last_hour.traffic.period_end - hour
    pub hour_traffic :
        aggregate_traffic_usage fl round.traffic five_minutes last_hour.traffic.period_start
          last_hour.traffic.period_end
          (some location)
        ≡ ok last_hour.traffic
    pub hour_bandwidth :
        aggregate_bandwidth_usage fl round.bandwidth five_minutes last_hour.traffic.period_start
          last_hour.traffic.period_end
          (some location)
        ≡ ok last_hour.bandwidth
    pub hour_peak :
        (last_hour.has_bandwidth ≡ true)
        × (last_hour.bandwidth.period_start ≡ last_hour.traffic.period_start)
        × (last_hour.bandwidth.period_end ≡ last_hour.traffic.period_end)
    pub today_from : so_far.traffic.period_start ≡ window.today_start
    pub today_till :
        so_far.traffic.period_end
        ≡ (if ltb window.today_start round.data_end then round.data_end else window.today_start)
    pub today_usage :
        IsToday fl round
          (record window { safe_before = round.data_end })
          location
          so_far.traffic
          so_far.bandwidth
          so_far.has_bandwidth
    pub month_listed : length rest ≡ (if include_month_traffic then 1 else 0)
    pub month_covers :
        All
          (IsMonth prior_month prior_bandwidth window month_start location complete
            include_month_bandwidth so_far)
          rest
