-- ===== src/Billing/Daily/Totals.antt =====
-- That the daily estimates add up to the total of the snapshot that they were made from.
use qiniu_exporter.Base.{
  Bool-cases, List, String, [], ap, arith, inl, inr, length, refl, some, subst, suc, sym, ℕ, ◌%◌,
  ◌+◌, ◌-◌, ◌<◌, ◌==◌, ◌^◌, ◌∙◌, ◌≡◌, ◌≤◌, ◌⊎◌,
}
use qiniu_exporter.Base.Calendar.Dates.{date_of, date_of-days, month_length, month_start}
use qiniu_exporter.Base.Result.{Result, err, ok}
use qiniu_exporter.Billing.{BillSnapshot, BillingError}
use qiniu_exporter.Billing.Daily.{
  DailyEstimate, Estimates, Snapshots, collect_daily_estimates, estimates_from, estimates_only,
}
use qiniu_exporter.Billing.Daily.Loop.{AreDaily, IsRun, first-IsRun, sum_costs}

-- What the estimates up to a day tell.
abbrev pub IsTotal : ℕ → ℕ → ℕ → Snapshots × Result BillingError (List DailyEstimate) → Type 0
IsTotal n left first (cache, err e) = Unit
IsTotal n left first (cache, ok es) =
    (last : BillSnapshot) × (cache n ≡ some last)
    × (sum_costs es % 2 ^ 64 ≡ last.total_money % 2 ^ 64)
    × (length es ≡ left)
    × AreDaily first last.currency es

IsRun-IsTotal :
    (n left first : ℕ) (currency : String) (r : Estimates)
    → first + suc left - 1 ≡ n
    → IsRun (suc left) first 0 currency r
    → IsTotal n (suc left) (first - 1) (estimates_only r)
IsRun-IsTotal n left first currency (cache, err e) at_n is = tt
IsRun-IsTotal n left first currency (cache, ok (es, last)) at_n (sum, len, same, are, at_end) = (
  last,
  ap cache (sym at_n) ∙ at_end,
  omega (arith, sum),
  len,
  subst (λ c. AreDaily (first - 1) c es) (sym same) are,
)

module _ (fetch : ℕ → Result BillingError BillSnapshot) where
  later-IsTotal :
      (n m e : ℕ) (cache : Snapshots)
      → month_start m + suc e ≡ n
      → suc e < month_length m
      → IsTotal n (suc e) (month_start m) (
          estimates_only (
            estimates_from fetch
              (suc n - (month_start m + 1))
              (month_start m + 1)
              (record { total_money = 0; currency = "" })
              cache))
  later-IsTotal n m e cache at_n inside =
      let left : suc e ≡ suc n - (month_start m + 1) = omega (arith, at_n) in
      let first : month_start m + 1 - 1 ≡ month_start m = omega arith in
      let (currency, is) =
        first-IsRun fetch e (month_start m + 1) m (record { total_money = 0; currency = "" }) cache
          refl (omega (arith, inside)) in
      subst
        (λ k. IsTotal n (suc e) (month_start m) (
          estimates_only (
            estimates_from fetch k (month_start m + 1) (record { total_money = 0; currency = "" })
              cache)))
        left
        (subst
          (λ f. IsTotal n (suc e) f (
            estimates_only (
              estimates_from fetch (suc e) (month_start m + 1)
                (record { total_money = 0; currency = "" }) cache)))
          first
          (IsRun-IsTotal n e (month_start m + 1) currency
            (estimates_from fetch (suc e) (month_start m + 1)
              (record { total_money = 0; currency = "" }) cache)
            (omega (arith, at_n)) is))

  -- The estimates that are made on a day that is not the first of its month are one for each day of
  -- the month before it, in order and all in the currency of its snapshot, and they add up, as int64
  -- do, to the total of that snapshot, which the map then holds. On the first of a month there is
  -- none.
  pub collect_daily_estimates-IsTotal :
      (n : ℕ) (cache : Snapshots)
      → (((date_of n).1 ≡ 1) × (collect_daily_estimates fetch n cache ≡ (cache, ok [])))
        ⊎ ((1 < (date_of n).1)
            × IsTotal n
                ((date_of n).1 - 1)
                (month_start (date_of n).0)
                (collect_daily_estimates fetch n cache))
  unfolding collect_daily_estimates
  collect_daily_estimates-IsTotal n cache =
      let (e, at_e, inside, sum) = date_of-days n in
      let m = (date_of n).0 in
      elim (Bool-cases ((date_of n).1 == 1)) [
        | inl q ↦ inl (ground arith, rw q refl)
        | inr q ↦
            let later : 1 ≤ e = ground (arith, at_e) in
            let same : suc (e - 1) ≡ (date_of n).1 - 1 = omega (arith, at_e, later) in
            inr (
              omega (arith, at_e, later),
              rw q (
                  subst
                    (λ k. IsTotal n k (month_start m) (
                      estimates_only (
                        estimates_from fetch (suc n - (month_start m + 1)) (month_start m + 1)
                          (record { total_money = 0; currency = "" }) cache)))
                    same
                    (later-IsTotal n m (e - 1) cache (omega (arith, sum, later))
                      (omega (arith, inside, later)))),
            )
      ]
