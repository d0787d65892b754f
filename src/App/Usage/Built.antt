-- ===== src/App/Usage/Built.antt =====
-- That a usage snapshot which is built lists its periods.
use qiniu_exporter.App.Usage.{
  CdnMonitoringWindow, CdnUsageRound, CdnUsageSnapshot, build_cdn_daily_traffic,
  build_cdn_usage_snapshot, current_month, hours_of, last_complete_hour, month_bandwidth,
  month_traffic, today_of, today_so_far,
}
use qiniu_exporter.App.Usage.Contents.{All-if, IsMonth, IsPeriods, length-if}
use qiniu_exporter.App.Usage.Peaks.{
  aggregate_bandwidth_usage-period, month_bandwidth-IsMonthPeak, month_traffic-IsMonthTraffic,
  today_of-IsToday,
}
use qiniu_exporter.App.Usage.Periods.{
  aggregate_traffic_usage-period, month_included-period, today_of-period,
}
use qiniu_exporter.Base.{
  Bool, List, [], arith, if◌then◌else◌, length, ltb, not, refl, some, subst, sym, true, ℕ, ◌&&◌,
  ◌==◌, ◌||◌, ◌∙◌, ◌∷◌, ◌≡◌, ◌≤◌,
}
use qiniu_exporter.Base.Calendar.{Location}
use qiniu_exporter.Base.Floats.{Floats}
use qiniu_exporter.Base.Result.{>>=-eq-ok, ok, ok-injective, refuse_if}
use qiniu_exporter.Base.Time.{is_zero_time}
use qiniu_exporter.Cdn.{invalid_input}
use qiniu_exporter.Cdn.Usage.{five_minutes}
use qiniu_exporter.Cdn.Usage.Bandwidth.{BandwidthUsageAggregate, aggregate_bandwidth_usage}
use qiniu_exporter.Cdn.Usage.Batches.{UsageBatch}
use qiniu_exporter.Cdn.Usage.Traffic.{aggregate_traffic_usage}

module _ {F : Type 0} (fl : Floats F) where
  -- Where a snapshot is built, for a month that starts by today: the data end lies within the safe
  -- window. The first period is labelled as the last complete hour: its traffic and bandwidth are
  -- the round's of the latest whole hour that ends by the data end. The second is labelled as today
  -- so far: the round's usage from today's start to the data end, or no usage and no bandwidth where
  -- the data does not reach today. The month's, so labelled, is there exactly if it is asked for:
  -- its traffic runs from the month's start to the end of today's, and is that of the days before
  -- today joined with today's; its bandwidth is that of the completed days joined with today's, of
  -- each of the two where it is asked for and there.
  pub build_cdn_usage_snapshot-IsPeriods :
      (round : CdnUsageRound F) (prior_month : List (UsageBatch F))
      (prior_bandwidth : BandwidthUsageAggregate F) (window : CdnMonitoringWindow) (month_start : ℕ)
      (location : Location) (complete include_month_traffic include_month_bandwidth : Bool)
      {result : CdnUsageSnapshot F}
      → month_start ≤ window.today_start
      → build_cdn_usage_snapshot fl round prior_month prior_bandwidth window month_start location
          complete include_month_traffic include_month_bandwidth
        ≡ ok result
      → (round.data_end ≤ window.safe_before)
        × IsPeriods fl round prior_month prior_bandwidth window month_start location complete
            include_month_traffic include_month_bandwidth result.periods
  unfolding build_cdn_usage_snapshot hours_of
  build_cdn_usage_snapshot-IsPeriods round prior_month prior_bandwidth window month_start location
        complete include_month_traffic include_month_bandwidth le h =
      let moved = hours_of window round.data_end in
      let (u1, e1, h1) =
        >>=-eq-ok
          (refuse_if (length round.bandwidth == 0 || length round.traffic == 0) invalid_input) _
          h in
      let (u2, e2, h2) =
        >>=-eq-ok
          (refuse_if (is_zero_time round.data_end || ltb window.safe_before round.data_end)
            invalid_input)
          _ h1 in
      let (hour_traffic, e3, h3) =
        >>=-eq-ok
          (aggregate_traffic_usage fl round.traffic five_minutes moved.hour_start moved.hour_end
            (some location))
          _ h2 in
      let (hour_bandwidth, e4, h4) =
        >>=-eq-ok
          (aggregate_bandwidth_usage fl round.bandwidth five_minutes moved.hour_start moved.hour_end
            (some location))
          _ h3 in
      let (day_usage, e5, h5) = >>=-eq-ok (today_of fl round moved location) _ h4 in
      let (month, e6, h6) =
        >>=-eq-ok
          (month_traffic fl prior_month day_usage.0 month_start moved location
            include_month_traffic)
          _ h5 in
      let (peak, e7, h7) =
        >>=-eq-ok
          (month_bandwidth fl prior_bandwidth day_usage.1 day_usage.2 include_month_bandwidth) _
          h6 in
      let (days, e8, h8) =
        >>=-eq-ok
          (if complete && include_month_traffic
            then build_cdn_daily_traffic fl prior_month day_usage.0 month_start window.today_start
                location
            else ok [])
          _ h7 in
      let (hs, he) =
        aggregate_traffic_usage-period fl round.traffic five_minutes moved.hour_start moved.hour_end
          (some location) e3 in
      let (bs, be) =
        aggregate_bandwidth_usage-period fl round.bandwidth five_minutes moved.hour_start
          moved.hour_end (some location) e4 in
      let (ts, te) = today_of-period fl round moved location e5 in
      (
        ground arith,
        subst
            (λ (r : CdnUsageSnapshot F).
              IsPeriods fl round prior_month prior_bandwidth window month_start location complete
                include_month_traffic include_month_bandwidth r.periods)
            (ok-injective h8)
            (record {
              last_hour = record {
                period = last_complete_hour;
                traffic = hour_traffic;
                bandwidth = hour_bandwidth;
                has_bandwidth = true;
                complete = complete;
              };
              so_far = record {
                period = today_so_far;
                traffic = day_usage.0;
                bandwidth = day_usage.1;
                has_bandwidth = day_usage.2;
                complete = complete;
              };
              rest =
                  if include_month_traffic
                  then (record {
                    period = current_month;
                    traffic = month;
                    bandwidth = peak;
                    has_bandwidth = include_month_bandwidth && not (peak.bucket_count == 0);
                    complete = complete;
                  })
                    ∷ []
                  else [];
              listed = refl;
              labels = (refl, refl);
              marked = (refl, refl);
              hour_complete = omega (arith, he);
              hour_latest = omega (arith, he);
              hour_whole = omega (arith, hs, he);
              hour_traffic = rw (hs, he) e3;
              hour_bandwidth = rw (hs, he) e4;
              hour_peak = (refl, bs ∙ sym hs, be ∙ sym he);
              today_from = ts;
              today_till = te;
              today_usage = today_of-IsToday fl round moved location e5;
              month_listed = length-if include_month_traffic _;
              month_covers =
                  All-if
                    (IsMonth fl prior_month prior_bandwidth window month_start location complete
                      include_month_bandwidth _)
                    include_month_traffic _
                    (λ t.
                      let (ms, me) =
                        month_included-period fl include_month_traffic prior_month day_usage.0
                          month_start moved location t le ts e6 in
                      record {
                        labelled = refl;
                        from_month = ms;
                        till_today = me;
                        joined =
                            month_traffic-IsMonthTraffic fl prior_month day_usage.0 month_start
                              moved location include_month_traffic t e6;
                        peak =
                            month_bandwidth-IsMonthPeak fl prior_bandwidth day_usage.1 day_usage.2
                              include_month_bandwidth e7;
                        peak_listed = refl;
                        marked = refl;
                      });
            }),
      )
