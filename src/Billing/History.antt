-- ===== src/Billing/History.antt =====
-- `finalizedHistoryCache` of internal/app/billing.go. The key of a month, the text of its year and
-- month, is the number of the month that it spells.
pub mod Kept
pub mod Fetched
pub mod Resumed
pub mod Sources
pub mod Complete
use qiniu_exporter.Base.{
  Bool, List, Option, [], false, if◌then◌else◌, length, none, some, true, ℕ, ◌==◌, ◌∷◌,
}
use qiniu_exporter.Base.Calendar.Dates.{date_of}
use qiniu_exporter.Base.Result.{Result, err, ok, ◌>>=◌, ◌>>◌}
use qiniu_exporter.Billing.{BillDetail, BillingError, BillingPeriod}
use qiniu_exporter.Billing.Daily.{validate_currency}
use qiniu_exporter.Billing.Schedule.{last_12_finalized_periods, local_day, select_periods}
use qiniu_exporter.Cdn.Points.{found}

pub record FinalizedMonth : Type 0 where
  pub detail : BillDetail
  pub period : BillingPeriod

abbrev pub Months : Type 0
Months = ℕ → Option FinalizedMonth

-- `finalizedPeriodKey`
abbrev pub period_key : BillingPeriod → ℕ
period_key period = (date_of (local_day period.start_at)).0

abbrev pub keep_month : ℕ → FinalizedMonth → Months → Months
keep_month key month months = λ k. if k == key then some month else months k

-- What a collection hands out: `latest` is none where the code leaves the zero value.
pub record FinalizedCollection : Type 0 where
  pub latest : Option FinalizedMonth
  pub last_12 : List FinalizedMonth
  pub last_12_complete : Bool

abbrev pub put_month : Option FinalizedMonth → ℕ → Months → Months
put_month none key kept = kept
put_month (some month) key kept = keep_month key month kept

abbrev pub cons_month : Option FinalizedMonth → List FinalizedMonth → List FinalizedMonth
cons_month none found = found
cons_month (some month) found = month ∷ found

-- The map `keep` of the months of the periods that are cached, beside what it holds already.
unfoldable pub keep_months : Months → List BillingPeriod → Months → Months
keep_months months [] kept = kept
keep_months months (p ∷ ps) kept =
    keep_months months ps (put_month (months (period_key p)) (period_key p) kept)

-- The slice `last12`: the months of the periods that are cached, in order.
unfoldable pub cached_months : Months → List BillingPeriod → List FinalizedMonth
cached_months months [] = []
cached_months months (p ∷ ps) = cons_month (months (period_key p)) (cached_months months ps)

abbrev pub no_months : Months
no_months key = none

abbrev pub unless_cached :
    Months
    → Option FinalizedMonth
    → Months × Result BillingError FinalizedMonth
    → Months × Result BillingError FinalizedMonth
unless_cached months (some month) requested = (months, ok month)
unless_cached months none requested = requested

abbrev pub or_stop :
    Months
    → Result BillingError FinalizedMonth
    → Months × Option BillingError
    → Months × Option BillingError
or_stop kept (err e) later = (kept, some e)
or_stop kept (ok month) later = later

abbrev pub store_month :
    BillingPeriod
    → Months
    → Result BillingError FinalizedMonth
    → Months × Result BillingError FinalizedMonth
store_month period months (ok month) = (keep_month (period_key period) month months, ok month)
store_month period months (err e) = (months, err e)

-- The end of `collect`, once the latest period and the history are fetched.
unfoldable pub gather :
    List BillingPeriod
    → BillingPeriod
    → FinalizedMonth
    → Months × Option BillingError
    → Months × FinalizedCollection × Option BillingError
unfolding keep_months cached_months
gather periods latest_period latest (months, failure) = (
  keep_month (period_key latest_period) latest (keep_months months periods no_months),
  record {
    latest = some latest;
    last_12 = cached_months months periods;
    last_12_complete = elim failure [ none ↦ true | some e ↦ false ];
  },
  failure,
)

module _ (bill_detail : BillingPeriod → Result BillingError BillDetail) where
  -- A response that `fetch` accepts, with its period.
  unfoldable pub request_month : BillingPeriod → Result BillingError FinalizedMonth
  unfolding validate_currency
  request_month period = do
    value ← bill_detail period
    validate_currency value.currency
    ok (record { detail = value; period = period })

  -- `fetch`
  unfoldable pub fetch_month : BillingPeriod → Months → Months × Result BillingError FinalizedMonth
  unfolding request_month
  fetch_month period months =
      unless_cached months (months (period_key period))
        (store_month period months (request_month period))

  -- The loop over the periods, up to the first error.
  unfoldable pub fetch_history : List BillingPeriod → Months → Months × Option BillingError
  unfolding fetch_month
  fetch_history [] months = (months, none)
  fetch_history (p ∷ ps) months =
      let (kept, fetched) = fetch_month p months in or_stop kept fetched (fetch_history ps kept)

  abbrev pub collect_from :
      List BillingPeriod
      → BillingPeriod
      → Months × Result BillingError FinalizedMonth
      → Months × FinalizedCollection × Option BillingError
  collect_from periods latest_period (kept, err e) =
      (kept, record { latest = none; last_12 = []; last_12_complete = length periods == 0 }, some e)
  collect_from periods latest_period (kept, ok latest) =
      gather periods latest_period latest (fetch_history periods kept)

  -- `collect`, at a time whose twelve periods are given.
  unfoldable pub collect_periods :
      List BillingPeriod → ℕ → Months → Months × FinalizedCollection × Option BillingError
  unfolding gather fetch_history select_periods
  collect_periods periods now months =
      let latest_period = (select_periods now).finalized in
      collect_from periods latest_period (fetch_month latest_period months)

  abbrev pub with_periods :
      ℕ
      → Months
      → Option (List BillingPeriod)
      → Option (Months × FinalizedCollection × Option BillingError)
  with_periods now months none = none
  with_periods now months (some periods) = some (collect_periods periods now months)

  -- `collect`; none where `Last12FinalizedPeriods` ran out of fuel, which it does not.
  unfoldable pub collect_finalized :
      ℕ → Months → Option (Months × FinalizedCollection × Option BillingError)
  unfolding last_12_finalized_periods
  collect_finalized now months = with_periods now months (last_12_finalized_periods now)
