-- ===== src/Billing/History/Fetched.antt =====
-- What the fetches of the history leave in the map, and that they are not made again.
use qiniu_exporter.Base.{
  Bool-cases, List, Option, [], ap, false, inl, inr, none, refl, some, subst, sym, ℕ, ◌==◌, ◌∙◌,
  ◌∷◌, ◌≡◌,
}
use qiniu_exporter.Base.Result.{Result, err, ok, ok-injective}
use qiniu_exporter.Billing.{BillDetail, BillingError, BillingPeriod}
use qiniu_exporter.Billing.History.{
  FinalizedMonth, Months, fetch_history, fetch_month, or_stop, period_key, request_month,
  store_month, unless_cached,
}
use qiniu_exporter.Billing.History.Kept.{AreCached, Grows, keep_month-same, same_key}

absent_key :
    (months : Months) (j k : ℕ) (m : FinalizedMonth)
    → months j ≡ none
    → months k ≡ some m
    → (k == j) ≡ false
absent_key months j k m e h = elim (Bool-cases (k == j)) [
  | inr s ↦ s
  | inl s ↦ let same : months k ≡ months j = ap months (same_key k j s) in absurd (cc)
]

unless_cached-Grows :
    (months : Months) (period : BillingPeriod) (o : Option FinalizedMonth)
    (r : Result BillingError FinalizedMonth)
    → months (period_key period) ≡ o
    → Grows months (unless_cached months o (store_month period months r)).0
unless_cached-Grows months period (some x) r e = λ k m h. h
unless_cached-Grows months period none (err x) e = λ k m h. h
unless_cached-Grows months period none (ok x) e =
    λ k m h. rw (absent_key months (period_key period) k m e h) h

unless_cached-holds :
    (months : Months) (period : BillingPeriod) (o : Option FinalizedMonth)
    (r : Result BillingError FinalizedMonth) (m : FinalizedMonth)
    → months (period_key period) ≡ o
    → (unless_cached months o (store_month period months r)).1 ≡ ok m
    → (unless_cached months o (store_month period months r)).0 (period_key period) ≡ some m
unless_cached-holds months period (some x) r m e h = e ∙ ap some (ok-injective h)
unless_cached-holds months period none (err x) m e h = cc
unless_cached-holds months period none (ok x) m e h =
    keep_month-same (period_key period) x months ∙ ap some (ok-injective h)

or_stop-none :
    (before : Months) (r : Result BillingError FinalizedMonth)
    (later : Months × Option BillingError)
    → (or_stop before r later).1 ≡ none
    → (m : FinalizedMonth) × (r ≡ ok m) × (or_stop before r later ≡ later)
or_stop-none before (err e) later h = cc
or_stop-none before (ok m) later h = (m, refl, refl)

module _ (bill_detail : BillingPeriod → Result BillingError BillDetail) where
  fetch_month-Grows :
      (p : BillingPeriod) (months : Months) → Grows months (fetch_month bill_detail p months).0
  unfolding fetch_month
  fetch_month-Grows p months =
      unless_cached-Grows months p (months (period_key p)) (request_month bill_detail p) refl

  pub fetch_month-holds :
      (p : BillingPeriod) (months : Months) (m : FinalizedMonth)
      → (fetch_month bill_detail p months).1 ≡ ok m
      → (fetch_month bill_detail p months).0 (period_key p) ≡ some m
  unfolding fetch_month
  fetch_month-holds p months m =
      unless_cached-holds months p (months (period_key p)) (request_month bill_detail p) m refl

  pub fetch_history-AreCached :
      (ps : List BillingPeriod) (months : Months)
      → (fetch_history bill_detail ps months).1 ≡ none
      → AreCached (fetch_history bill_detail ps months).0 ps
        × Grows months (fetch_history bill_detail ps months).0
  unfolding fetch_history
  fetch_history-AreCached [] months h = (tt, λ k m q. q)
  fetch_history-AreCached (p ∷ ps) months h =
      let fetched = fetch_month bill_detail p months in
      let (m, got, same) =
        or_stop-none fetched.0 fetched.1 (fetch_history bill_detail ps fetched.0) h in
      let (cached, grows) =
        fetch_history-AreCached ps fetched.0
          (sym (ap (λ (x : Months × Option BillingError). x.1) same) ∙ h) in
      subst (λ (x : Months × Option BillingError). AreCached x.0 (p ∷ ps) × Grows months x.0)
        (sym same)
        (
          ((m, grows (period_key p) m (fetch_month-holds p months m got)), cached),
          λ k x q. grows k x (fetch_month-Grows p months k x q),
        )

  pub fetch_month-again :
      (p : BillingPeriod) (months : Months) (m : FinalizedMonth)
      → months (period_key p) ≡ some m
      → fetch_month bill_detail p months ≡ (months, ok m)
  unfolding fetch_month
  fetch_month-again p months m e =
      ap (λ o. unless_cached months o (store_month p months (request_month bill_detail p))) e

  pub fetch_history-again :
      (ps : List BillingPeriod) (months : Months)
      → AreCached months ps
      → fetch_history bill_detail ps months ≡ (months, none)
  unfolding fetch_history
  fetch_history-again [] months c = refl
  fetch_history-again (p ∷ ps) months ((m, e), c) =
      ap
        (λ (x : Months × Result BillingError FinalizedMonth).
          or_stop x.0 x.1 (fetch_history bill_detail ps x.0))
        (fetch_month-again p months m e)
      ∙ fetch_history-again ps months c
