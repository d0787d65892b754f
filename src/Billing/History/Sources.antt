-- ===== src/Billing/History/Sources.antt =====
-- Where the months of the history come from, and which request or currency an error is of.
use qiniu_exporter.Base.{
  Bool-cases, List, Option, String, [], ap, arith, eq_iff, false, inl, inr, none, refl, some,
  str_eq, subst, sym, ℕ, ◌==◌, ◌∙◌, ◌∷◌, ◌≡◌, ◌⊎◌,
}
use qiniu_exporter.Base.Result.{>>=-eq-ok, Result, Result-cases, err, ok, ok-injective}
use qiniu_exporter.Billing.{BillDetail, BillingError, BillingPeriod, unsupported_currency}
use qiniu_exporter.Billing.Daily.{validate_currency}
use qiniu_exporter.Billing.History.{
  FinalizedMonth, Months, cached_months, fetch_history, fetch_month, keep_month, or_stop,
  period_key, request_month, store_month, unless_cached,
}
use qiniu_exporter.Billing.History.Kept.{AreCached, same_key}

some-injective : {A : Type 0} {x y : A} → some x ≡ some y → x ≡ y
some-injective h = ground arith

-- The error of an answer whose currency is refused.
validate_currency-cases :
    (c : String)
    → ((validate_currency c ≡ ok tt) × ((c ≡ "CNY") ⊎ (c ≡ "USD")))
      ⊎ ((validate_currency c ≡ err unsupported_currency)
          × (str_eq c "CNY" ≡ false)
          × (str_eq c "USD" ≡ false))
unfolding validate_currency
validate_currency-cases c = elim (Bool-cases (str_eq c "CNY")) [
  | inl e ↦ inl (rw e refl, inl (ground (arith, eq_iff c "CNY")))
  | inr e ↦ elim (Bool-cases (str_eq c "USD")) [
    | inl e' ↦ inl (rw (e, e') refl, inr (ground (arith, eq_iff c "USD")))
    | inr e' ↦ inr (rw (e, e') refl, e, e')
  ]
]

module _ (bill_detail : BillingPeriod → Result BillingError BillDetail) where
  -- What was answered for its period, in one of the two currencies.
  abbrev pub IsAccepted : FinalizedMonth → Type 0
  IsAccepted m =
      (bill_detail m.period ≡ ok m.detail)
      × ((m.detail.currency ≡ "CNY") ⊎ (m.detail.currency ≡ "USD"))

  -- The request for the period fails with e, or is answered in another currency.
  abbrev pub Fails : BillingError → BillingPeriod → Type 0
  Fails e p =
      (bill_detail p ≡ err e)
      ⊎ ((value : BillDetail) × (bill_detail p ≡ ok value)
          × (str_eq value.currency "CNY" ≡ false)
          × (str_eq value.currency "USD" ≡ false)
          × (e ≡ unsupported_currency))

  abbrev pub SomeFails : BillingError → List BillingPeriod → Type 0
  SomeFails e [] = ⊥
  SomeFails e (p ∷ ps) = Fails e p ⊎ SomeFails e ps

  -- The month was in the map under the key, or was requested and accepted for it.
  abbrev pub IsFrom : Months → ℕ → FinalizedMonth → Type 0
  IsFrom months k m = (months k ≡ some m) ⊎ ((period_key m.period ≡ k) × IsAccepted m)

  abbrev pub AreFrom : Months → List BillingPeriod → List FinalizedMonth → Type 0
  AreFrom months [] [] = Unit
  AreFrom months (p ∷ ps) (m ∷ ms) = IsFrom months (period_key p) m × AreFrom months ps ms
  AreFrom months _ _ = ⊥

  request_month-IsAccepted :
      (p : BillingPeriod) {m : FinalizedMonth}
      → request_month bill_detail p ≡ ok m
      → (m.period ≡ p) × IsAccepted m
  unfolding request_month
  request_month-IsAccepted p {m = m} h =
      let (value, e, h1) = >>=-eq-ok (bill_detail p) _ h in
      let (u, e1, h2) = >>=-eq-ok (validate_currency value.currency) _ h1 in
      subst (λ (x : FinalizedMonth). (x.period ≡ p) × IsAccepted x) (ok-injective h2)
        (elim (validate_currency-cases value.currency) [
          | inl (q, c) ↦ (refl, (e, c))
          | inr (q, n, n2) ↦ cc
        ])

  request_month-Fails :
      (p : BillingPeriod) {e : BillingError} → request_month bill_detail p ≡ err e → Fails e p
  unfolding request_month
  request_month-Fails p {e = e} h = elim (Result-cases (bill_detail p)) [
    | inr (x, q) ↦ inl (ground arith)
    | inl (value, q) ↦ elim (validate_currency-cases value.currency) [
      | inl (r, c) ↦ absurd (ground arith)
      | inr (r, n, n') ↦ inr (value, q, n, n', ground arith)
    ]
  ]

  module _ (months : Months) where
    abbrev pub Sourced : Months → Type 0
    Sourced kept = (k : ℕ) (m : FinalizedMonth) → kept k ≡ some m → IsFrom months k m

    keep_month-Sourced :
        (p : BillingPeriod) (x : FinalizedMonth) (kept : Months)
        → (x.period ≡ p) × IsAccepted x
        → Sourced kept
        → Sourced (keep_month (period_key p) x kept)
    keep_month-Sourced p x kept (at_p, is) s k m h = elim (Bool-cases (k == period_key p)) [
      | inr e ↦ s k m (rw e at h)
      | inl e ↦
          let same : x ≡ m = some-injective (rw e at h) in
          subst (IsFrom months k) same
            (inr (ap period_key at_p ∙ sym (same_key k (period_key p) e), is))
    ]

    unless_cached-Sourced :
        (p : BillingPeriod) (kept : Months) (o : Option FinalizedMonth)
        (r : Result BillingError FinalizedMonth)
        → ((m : FinalizedMonth) → r ≡ ok m → (m.period ≡ p) × IsAccepted m)
        → Sourced kept
        → Sourced (unless_cached kept o (store_month p kept r)).0
    unless_cached-Sourced p kept (some x) r f s = s
    unless_cached-Sourced p kept none (err e) f s = s
    unless_cached-Sourced p kept none (ok x) f s = keep_month-Sourced p x kept (f x refl) s

    pub fetch_month-Sourced :
        (p : BillingPeriod) (kept : Months)
        → Sourced kept
        → Sourced (fetch_month bill_detail p kept).0
    unfolding fetch_month
    fetch_month-Sourced p kept =
        unless_cached-Sourced p kept (kept (period_key p)) (request_month bill_detail p)
          (λ m. request_month-IsAccepted p)

    or_stop-Sourced :
        (kept : Months) (r : Result BillingError FinalizedMonth)
        (later : Months × Option BillingError)
        → Sourced kept
        → Sourced later.0
        → Sourced (or_stop kept r later).0
    or_stop-Sourced kept (err e) later s t = s
    or_stop-Sourced kept (ok m) later s t = t

    pub fetch_history-Sourced :
        (ps : List BillingPeriod) (kept : Months)
        → Sourced kept
        → Sourced (fetch_history bill_detail ps kept).0
    unfolding fetch_history
    fetch_history-Sourced [] kept s = s
    fetch_history-Sourced (p ∷ ps) kept s =
        let fetched = fetch_month bill_detail p kept in
        let t = fetch_month-Sourced p kept s in
        or_stop-Sourced fetched.0 fetched.1 (fetch_history bill_detail ps fetched.0) t
          (fetch_history-Sourced ps fetched.0 t)

    pub cached_months-AreFrom :
        (kept : Months) (ps : List BillingPeriod)
        → Sourced kept
        → AreCached kept ps
        → AreFrom months ps (cached_months kept ps)
    unfolding cached_months
    cached_months-AreFrom kept [] s c = tt
    cached_months-AreFrom kept (p ∷ ps) s ((m, e), c) =
        rw e (s (period_key p) m e, cached_months-AreFrom kept ps s c)

  unless_cached-err :
      (p : BillingPeriod) (kept : Months) (o : Option FinalizedMonth)
      (r : Result BillingError FinalizedMonth) (e : BillingError)
      → (unless_cached kept o (store_month p kept r)).1 ≡ err e
      → r ≡ err e
  unless_cached-err p kept (some x) r e h = cc
  unless_cached-err p kept none (err x) e h = h
  unless_cached-err p kept none (ok x) e h = cc

  pub fetch_month-Fails :
      (p : BillingPeriod) (kept : Months) (e : BillingError)
      → (fetch_month bill_detail p kept).1 ≡ err e
      → Fails e p
  unfolding fetch_month
  fetch_month-Fails p kept e h =
      request_month-Fails p
        (unless_cached-err p kept (kept (period_key p)) (request_month bill_detail p) e h)

  or_stop-SomeFails :
      (p : BillingPeriod) (ps : List BillingPeriod) (kept : Months)
      (r : Result BillingError FinalizedMonth) (later : Months × Option BillingError)
      (e : BillingError)
      → ((x : BillingError) → r ≡ err x → Fails x p)
      → (later.1 ≡ some e → SomeFails e ps)
      → (or_stop kept r later).1 ≡ some e
      → SomeFails e (p ∷ ps)
  or_stop-SomeFails p ps kept (err x) later e f g h =
      inl (subst (λ y. Fails y p) (some-injective h) (f x refl))
  or_stop-SomeFails p ps kept (ok m) later e f g h = inr (g h)

  pub fetch_history-SomeFails :
      (ps : List BillingPeriod) (kept : Months) (e : BillingError)
      → (fetch_history bill_detail ps kept).1 ≡ some e
      → SomeFails e ps
  unfolding fetch_history
  fetch_history-SomeFails [] kept e h = cc
  fetch_history-SomeFails (p ∷ ps) kept e h =
      let fetched = fetch_month bill_detail p kept in
      or_stop-SomeFails p ps fetched.0 fetched.1 (fetch_history bill_detail ps fetched.0) e
        (λ x. fetch_month-Fails p kept x) (fetch_history-SomeFails ps fetched.0 e) h
