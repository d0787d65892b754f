-- ===== src/Billing/Schedule.antt =====
-- internal/qiniu/billing/schedule.go, and of internal/app/billing.go the times of day at which its
-- jobs run. A day of the calendar in Asia/Shanghai is its day number.
pub mod Periods
pub mod Runs
use qiniu_exporter.Base.{
  Bool, List, Option, [], false, if◌then◌else◌, leb, ltb, none, some, suc, true, zero, ℕ, ◌%◌, ◌&&◌,
  ◌*◌, ◌+◌, ◌-◌, ◌/◌, ◌==◌, ◌∷◌,
}
use qiniu_exporter.Base.Calendar.Dates.{date_of, month_start}
use qiniu_exporter.Base.Time.{day, hour, minute, zero_time}
use qiniu_exporter.Billing.{BillingPeriod}

abbrev pub zone : ℕ
zone = 8 * hour

-- The instant of a midnight.
abbrev pub midnight : ℕ → ℕ
midnight n = n * day - zone

-- The day of an instant, and the time of day that the clock shows.
abbrev pub local_day : ℕ → ℕ
local_day t = (t + zone) / day

abbrev pub local_clock : ℕ → ℕ
local_clock t = (t + zone) % day

abbrev pub billing_midnight : ℕ → ℕ
billing_midnight t = midnight (local_day t)

abbrev pub ready_clock : ℕ
ready_clock = 8 * hour + 15 * minute

-- `snapshot_date` counts where `snapshot_ready` is true; it is the zero time otherwise.
pub record PeriodSelection : Type 0 where
  pub snapshot_date : ℕ
  pub snapshot_ready : Bool
  pub finalized : BillingPeriod

-- From the first of a month to the first of the next.
abbrev pub month_period : ℕ → BillingPeriod
month_period n = record {
  start_at = midnight (month_start n);
  end_at = midnight (month_start (suc n));
}

-- The period that is finalized on the d-th day of a month.
abbrev pub finalized_period : ℕ → ℕ → BillingPeriod
finalized_period month d =
    if leb d 4
    then record {
      start_at = midnight (month_start (month - 2));
      end_at = midnight (month_start (month - 1));
    }
    else record {
      start_at = midnight (month_start (month - 1));
      end_at = midnight (month_start month);
    }

-- `SelectPeriods`
unfoldable pub select_periods : ℕ → PeriodSelection
select_periods now =
    let (month, d) = date_of (local_day now) in
    let today = billing_midnight now in
    if leb (today + ready_clock) now
    then record {
      snapshot_date = today;
      snapshot_ready = true;
      finalized = finalized_period month d;
    }
    else if ltb 1 d
    then record {
      snapshot_date = midnight (local_day now - 1);
      snapshot_ready = true;
      finalized = finalized_period month d;
    }
    else record {
      snapshot_date = zero_time;
      snapshot_ready = false;
      finalized = finalized_period month d;
    }

-- `time.Date` in Shanghai with the given month and with the day and the clock of t.
abbrev pub in_month : ℕ → ℕ → ℕ
in_month month t = midnight (month_start month + ((date_of (local_day t)).1 - 1)) + local_clock t

-- `t.AddDate(0, 1, 0)` and `t.AddDate(0, -n, 0)`
unfoldable pub add_month : ℕ → ℕ
add_month t = in_month (suc (date_of (local_day t)).0) t

unfoldable pub sub_months : ℕ → ℕ → ℕ
sub_months n t = in_month ((date_of (local_day t)).0 - n) t

-- The loop of `Last12FinalizedPeriods`, on fuel.
unfoldable pub periods_until : ℕ → ℕ → ℕ → Option (List BillingPeriod)
unfolding add_month
periods_until zero latest start = none
periods_until (suc fuel) latest start =
    let behind = periods_until fuel latest (add_month start) in
    if ltb latest start then some [] else elim behind [
      | none ↦ none
      | some ps ↦ some (record { start_at = start; end_at = add_month start } ∷ ps)
    ]

unfoldable pub last_12_finalized_periods : ℕ → Option (List BillingPeriod)
unfolding periods_until sub_months select_periods
last_12_finalized_periods now =
    let latest = (select_periods now).finalized.start_at in
    periods_until 13 latest (sub_months 11 latest)

unfoldable pub valid_monthly_period : BillingPeriod → Bool
unfolding add_month
valid_monthly_period period =
    period.start_at == billing_midnight period.start_at
    && (date_of (local_day period.start_at)).1 == 1
    && period.end_at == billing_midnight period.end_at
    && (date_of (local_day period.end_at)).1 == 1
    && period.end_at == add_month period.start_at

-- `estimatePeriod`, of the midnight of a snapshot.
unfoldable pub estimate_period : ℕ → BillingPeriod
estimate_period snapshot_date =
    let (month, d) = date_of (local_day snapshot_date) in
    record {
      start_at = midnight (month_start (if d == 1 then month - 1 else month));
      end_at = snapshot_date;
    }

-- `todayShanghaiTimeAt`
abbrev pub today_at : ℕ → ℕ → ℕ → ℕ
today_at now at_hour at_minute = billing_midnight now + (at_hour * hour + at_minute * minute)

-- `nextShanghaiTime`
unfoldable pub next_shanghai_time : ℕ → ℕ → ℕ → ℕ
next_shanghai_time at_hour at_minute now =
    let target = today_at now at_hour at_minute in
    (if ltb now target then target else target + day) - now
