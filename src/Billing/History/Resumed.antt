-- ===== src/Billing/History/Resumed.antt =====
-- What a collection of the history leaves for the next one.
use qiniu_exporter.Base.{
  Bool-cases, List, Option, [], ap, inl, inr, none, refl, some, subst, sym, true, ℕ, ◌==◌, ◌∙◌, ◌∷◌,
  ◌≡◌,
}
use qiniu_exporter.Base.Result.{Result, err, ok}
use qiniu_exporter.Billing.{BillDetail, BillingError, BillingPeriod}
use qiniu_exporter.Billing.History.{
  FinalizedCollection, FinalizedMonth, Months, collect_from, collect_periods, fetch_history,
  fetch_month, gather, keep_month, keep_months, no_months, period_key,
}
use qiniu_exporter.Billing.History.Fetched.{
  fetch_history-AreCached, fetch_history-again, fetch_month-again, fetch_month-holds,
}
use qiniu_exporter.Billing.History.Kept.{
  Agree, AreCached, cached_months-Agree, keep_month-same, keep_months-Agree, keep_months-same,
  same_key,
}
use qiniu_exporter.Billing.Schedule.{select_periods}
use mathlib.Core.Path.{ap₂}

-- What `collect` leaves and returns once everything is fetched.
abbrev pub gathered :
    List BillingPeriod
    → BillingPeriod
    → FinalizedMonth
    → Months
    → Months × FinalizedCollection × Option BillingError
gathered ps latest_period latest months = gather ps latest_period latest (months, none)

pub gather-none :
    (ps : List BillingPeriod) (latest_period : BillingPeriod) (latest : FinalizedMonth)
    (h : Months × Option BillingError)
    → (gather ps latest_period latest h).2 ≡ none
    → (h.1 ≡ none) × (gather ps latest_period latest h ≡ gathered ps latest_period latest h.0)
unfolding gather
gather-none ps latest_period latest (months, none) h = (refl, refl)
gather-none ps latest_period latest (months, some e) h = cc

keep_month-Agree :
    (a b : Months) (k : ℕ) (l : FinalizedMonth) (ps : List BillingPeriod)
    → b k ≡ some l
    → Agree a b ps
    → Agree (keep_month k l a) b ps
keep_month-Agree a b k l [] e h = tt
keep_month-Agree a b k l (p ∷ ps) e (q, h) = (
  elim (Bool-cases (period_key p == k)) [
    | inl s ↦ rw s (sym e ∙ ap b (sym (same_key (period_key p) k s)))
    | inr s ↦ rw s q
  ],
  keep_month-Agree a b k l ps e h,
)

Agree-AreCached :
    (a b : Months) (ps : List BillingPeriod) → Agree a b ps → AreCached b ps → AreCached a ps
Agree-AreCached a b [] h c = tt
Agree-AreCached a b (p ∷ ps) (e, h) ((m, q), c) = ((m, e ∙ q), Agree-AreCached a b ps h c)

gathered-same :
    (ps : List BillingPeriod) (p : BillingPeriod) (latest : FinalizedMonth) (a b : Months)
    → Agree a b ps
    → gathered ps p latest a ≡ gathered ps p latest b
unfolding gather
gathered-same ps p latest a b h =
    ap₂
      (λ (kept : Months) (found_months : List FinalizedMonth). (
        keep_month (period_key p) latest kept,
        (record { latest = some latest; last_12 = found_months; last_12_complete = true }),
        none,
      ))
      (keep_months-same a b ps no_months h) (cached_months-Agree a b ps h)

-- The map that a collection leaves agrees with what it has fetched.
gathered-Agree :
    (ps : List BillingPeriod) (p : BillingPeriod) (latest : FinalizedMonth) (months : Months)
    → AreCached months ps
    → months (period_key p) ≡ some latest
    → Agree (gathered ps p latest months).0 months ps
unfolding gather
gathered-Agree ps p latest months c e =
    keep_month-Agree (keep_months months ps no_months) months (period_key p) latest ps e
      (keep_months-Agree months ps no_months c)

module _ (bill_detail later_detail : BillingPeriod → Result BillingError BillDetail) where
  gathered-again :
      (ps : List BillingPeriod) (p : BillingPeriod) (latest : FinalizedMonth) (months : Months)
      → AreCached months ps
      → months (period_key p) ≡ some latest
      → collect_from later_detail ps p (fetch_month later_detail p (gathered ps p latest months).0)
        ≡ gathered ps p latest months
  unfolding gather
  gathered-again ps p latest months c e =
      let left = (gathered ps p latest months).0 in
      let agree = gathered-Agree ps p latest months c e in
      ap (collect_from later_detail ps p) (
        fetch_month-again later_detail p left latest
          (keep_month-same (period_key p) latest (keep_months months ps no_months)))
      ∙ ap (gather ps p latest)
          (fetch_history-again later_detail ps left (Agree-AreCached left months ps agree c))
      ∙ gathered-same ps p latest left months agree

  collect_from-again :
      (ps : List BillingPeriod) (p : BillingPeriod)
      (r : Months × Result BillingError FinalizedMonth)
      → ((m : FinalizedMonth) → r.1 ≡ ok m → r.0 (period_key p) ≡ some m)
      → (collect_from bill_detail ps p r).2 ≡ none
      → collect_from later_detail ps p
          (fetch_month later_detail p (collect_from bill_detail ps p r).0)
        ≡ collect_from bill_detail ps p r
  collect_from-again ps p (kept, err e) f h = cc
  collect_from-again ps p (kept, ok latest) f h =
      let fetched = fetch_history bill_detail ps kept in
      let (no_failure, same) = gather-none ps p latest fetched h in
      let (cached, grows) = fetch_history-AreCached bill_detail ps kept no_failure in
      subst
        (λ (x : Months × FinalizedCollection × Option BillingError).
          collect_from later_detail ps p (fetch_month later_detail p x.0) ≡ x)
        (sym same)
        (gathered-again ps p latest fetched.0 cached (grows (period_key p) latest (f latest refl)))

  -- After a collection that succeeded, a later one at any time with the same twelve periods and the
  -- same latest period returns the same and leaves the same map, whatever a request would then give.
  pub collect_periods-again :
      (periods : List BillingPeriod) (now later : ℕ) (months : Months)
      → (select_periods later).finalized ≡ (select_periods now).finalized
      → (collect_periods bill_detail periods now months).2 ≡ none
      → collect_periods later_detail periods later
          (collect_periods bill_detail periods now months).0
        ≡ collect_periods bill_detail periods now months
  unfolding collect_periods
  collect_periods-again periods now later months same h =
      let p = (select_periods now).finalized in
      let left = (collect_from bill_detail periods p (fetch_month bill_detail p months)).0 in
      ap (λ q. collect_from later_detail periods q (fetch_month later_detail q left)) same
      ∙ collect_from-again periods p (fetch_month bill_detail p months)
          (λ m. fetch_month-holds bill_detail p months m) h
