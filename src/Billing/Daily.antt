-- ===== src/Billing/Daily.antt =====
-- `collectDailyEstimates` of internal/app/billing.go, and the job `billing/estimate`. The key of a
-- snapshot, the text of its date, is the number of the day that it spells.
pub mod Loop
pub mod Totals
use qiniu_exporter.Base.{
  List, Option, String, [], if◌then◌else◌, ltb, none, not, some, str_eq, suc, zero, ℕ, ◌&&◌, ◌+◌,
  ◌-◌, ◌==◌, ◌∷◌,
}
use qiniu_exporter.Base.Calendar.Dates.{date_of, month_start}
use qiniu_exporter.Base.Result.{Result, err, ok, refuse_if, ◌>>=◌, ◌>>◌}
use qiniu_exporter.Billing.{
  BillSnapshot, BillingError, Fixed8, different_currencies, minus_fixed, unsupported_currency,
}
use qiniu_exporter.Cdn.Points.{found}

abbrev pub Snapshots : Type 0
Snapshots = ℕ → Option BillSnapshot

abbrev pub keep_snapshot : ℕ → BillSnapshot → Snapshots → Snapshots
keep_snapshot n s cache = λ d. if d == n then some s else cache d

-- `date` is a day number.
pub record DailyEstimate : Type 0 where
  pub date : ℕ
  pub cost : Fixed8
  pub currency : String

unfoldable pub validate_currency : String → Result BillingError (Unit {0})
validate_currency value =
    refuse_if (not (str_eq value "CNY") && not (str_eq value "USD")) unsupported_currency

-- The cost of a day, from the snapshots of the day after it and of the day itself.
unfoldable pub daily_cost : ℕ → BillSnapshot → BillSnapshot → Result BillingError Fixed8
daily_cost date previous current =
    if ltb 2 (date_of date).1
    then (if str_eq previous.currency current.currency
        then ok (minus_fixed current.total_money previous.total_money)
        else err different_currencies)
    else ok current.total_money

abbrev pub estimated : ℕ → BillSnapshot → Fixed8 → DailyEstimate
estimated date current cost = record { date = date - 1; cost = cost; currency = current.currency }

-- The results of the loop: the map, and the estimates with the last snapshot, or an error.
abbrev pub Estimates : Type 0
Estimates = Snapshots × Result BillingError (List DailyEstimate × BillSnapshot)

-- An estimate before those of the later days.
abbrev pub with_cost :
    ℕ → BillSnapshot → Snapshots → Estimates → Result BillingError Fixed8 → Estimates
with_cost date current cache later (err e) = (cache, err e)
with_cost date current cache (kept, behind) (ok cost) =
    (kept, behind >>= λ r. ok (estimated date current cost ∷ r.0, r.1))

abbrev pub estimates_only : Estimates → Snapshots × Result BillingError (List DailyEstimate)
estimates_only (cache, r) = (cache, r >>= λ found. ok found.0)

module _ (fetch : ℕ → Result BillingError BillSnapshot) where
  abbrev pub snapshot_of : ℕ → Snapshots → Result BillingError BillSnapshot
  snapshot_of date cache = elim (cache date) [ some s ↦ ok s | none ↦ fetch date ]

  -- The loop from a day on, over so many days.
  unfoldable pub estimates_from : ℕ → ℕ → BillSnapshot → Snapshots → Estimates
  unfolding validate_currency daily_cost
  estimates_from zero date previous cache = (cache, ok ([], previous))
  estimates_from (suc left) date previous cache = elim (snapshot_of date cache) [
    | err e ↦ (cache, err e)
    | ok current ↦
        with_cost date current (keep_snapshot date current cache)
          (estimates_from left (suc date) current (keep_snapshot date current cache))
          (validate_currency current.currency >> daily_cost date previous current)
  ]

  -- `collectDailyEstimates`: `previous` starts as the zero value.
  unfoldable pub collect_daily_estimates :
      ℕ → Snapshots → Snapshots × Result BillingError (List DailyEstimate)
  unfolding estimates_from
  collect_daily_estimates snapshot_date cache =
      let (month, d) = date_of snapshot_date in
      if d == 1
      then (cache, ok [])
      else estimates_only (
          estimates_from (suc snapshot_date - (month_start month + 1)) (month_start month + 1)
            (record { total_money = 0; currency = "" }) cache)
