-- ===== src/Billing/History/Complete.antt =====
-- That a collection of the history ends, and when it hands out the whole year.
use qiniu_exporter.Base.{
  List, Option, ap, false, inl, inr, length, none, refl, some, true, ℕ, ◌==◌, ◌∷◌, ◌≡◌, ◌≤◌,
}
use qiniu_exporter.Base.Result.{Result, err, ok}
use qiniu_exporter.Base.Time.{zero_time}
use qiniu_exporter.Billing.{BillDetail, BillingError, BillingPeriod}
use qiniu_exporter.Billing.History.{
  FinalizedCollection, FinalizedMonth, Months, cached_months, collect_finalized, collect_from,
  collect_periods, fetch_history, fetch_month, gather, period_key, with_periods,
}
use qiniu_exporter.Billing.History.Fetched.{fetch_history-AreCached, fetch_month-holds}
use qiniu_exporter.Billing.History.Sources.{
  AreFrom, Fails, IsFrom, SomeFails, Sourced, cached_months-AreFrom, fetch_history-SomeFails,
  fetch_history-Sourced, fetch_month-Fails, fetch_month-Sourced,
}
use qiniu_exporter.Billing.Schedule.{last_12_finalized_periods, select_periods}
use qiniu_exporter.Billing.Schedule.Runs.{last_12-months_from, months_from}

module _ (bill_detail : BillingPeriod → Result BillingError BillDetail) where
  -- The year is handed out where nothing failed, and then it has a month for each period.
  abbrev pub IsComplete :
      Months
      → List BillingPeriod
      → BillingPeriod
      → Months × FinalizedCollection × Option BillingError
      → Type 0
  IsComplete months ps p (kept, c, none) =
      (c.last_12_complete ≡ true)
      × AreFrom bill_detail months ps c.last_12
      × ((m : FinalizedMonth) × (c.latest ≡ some m) × IsFrom bill_detail months (period_key p) m)
  IsComplete months ps p (kept, c, some e) =
      (c.last_12_complete ≡ false) × SomeFails bill_detail e (p ∷ ps)

  gather-IsComplete :
      (months : Months) (ps : List BillingPeriod) (p : BillingPeriod) (latest : FinalizedMonth)
      (h : Months × Option BillingError)
      → IsFrom bill_detail months (period_key p) latest
      → (h.1 ≡ none → AreFrom bill_detail months ps (cached_months h.0 ps))
      → ((e : BillingError) → h.1 ≡ some e → SomeFails bill_detail e ps)
      → IsComplete months ps p (gather ps p latest h)
  unfolding gather
  gather-IsComplete months ps p latest (kept, none) from c f = (refl, c refl, (latest, refl, from))
  gather-IsComplete months ps p latest (kept, some e) from c f = (refl, inr (f e refl))

  collect_from-IsComplete :
      (months : Months) (ps : List BillingPeriod) (p : BillingPeriod)
      (r : Months × Result BillingError FinalizedMonth)
      → (length ps == 0) ≡ false
      → Sourced bill_detail months r.0
      → ((e : BillingError) → r.1 ≡ err e → Fails bill_detail e p)
      → ((m : FinalizedMonth) → r.1 ≡ ok m → r.0 (period_key p) ≡ some m)
      → IsComplete months ps p (collect_from bill_detail ps p r)
  collect_from-IsComplete months ps p (kept, err e) h s f g = (h, inl (f e refl))
  collect_from-IsComplete months ps p (kept, ok latest) h s f g =
      let history = fetch_history bill_detail ps kept in
      gather-IsComplete months ps p latest history (s (period_key p) latest (g latest refl))
        (λ q.
          cached_months-AreFrom bill_detail months history.0 ps
            (fetch_history-Sourced bill_detail months ps kept s)
            (fetch_history-AreCached bill_detail ps kept q).0)
        (fetch_history-SomeFails bill_detail ps kept)

  -- At any time of the calendar there are twelve periods and `collect` ends. Where it reports no
  -- error, it hands the year out as complete, with one month for each of the twelve periods in
  -- order; each of these and the latest month were in the given map under the period's key, or are
  -- the answer to a request for a period of that key, in CNY or USD. Where it reports an error, the
  -- year is not complete, and the error is of the request for the latest period or one of the
  -- twelve, or says that its answer has another currency.
  pub collect_finalized-IsComplete :
      (now : ℕ) (months : Months)
      → zero_time ≤ now
      → (periods : List BillingPeriod) × (out : Months × FinalizedCollection × Option BillingError)
        × (last_12_finalized_periods now ≡ some periods)
        × (length periods ≡ 12)
        × (collect_finalized bill_detail now months ≡ some out)
        × IsComplete months periods (select_periods now).finalized out
  unfolding collect_finalized collect_periods
  collect_finalized-IsComplete now months h =
      let (k, same, periods, valid) = last_12-months_from now h in
      let p = (select_periods now).finalized in
      (
        months_from k 12,
        collect_from bill_detail (months_from k 12) p (fetch_month bill_detail p months),
        periods,
        refl,
        ap (with_periods bill_detail now months) periods,
        collect_from-IsComplete months (months_from k 12) p (fetch_month bill_detail p months) refl
            (fetch_month-Sourced bill_detail months p months (λ j m q. inl q))
            (fetch_month-Fails bill_detail p months)
            (λ m. fetch_month-holds bill_detail p months m),
      )
