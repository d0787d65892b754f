-- ===== src/Billing/History/Kept.antt =====
-- The maps of the history: what is kept of them, and when two of them agree.
use qiniu_exporter.Base.{
  All, Bool-cases, List, Option-cases, [], ap, arith, inl, inr, refl, some, sym, true, ℕ, ◌==◌, ◌∙◌,
  ◌∷◌, ◌≡◌,
}
use qiniu_exporter.Billing.{BillingPeriod}
use qiniu_exporter.Billing.History.{
  FinalizedMonth, Months, cached_months, cons_month, keep_month, keep_months, period_key, put_month,
}
use mathlib.Core.Path.{ap₂}

-- Every period of the list has its month in the map.
abbrev pub AreCached : Months → List BillingPeriod → Type 0
AreCached months ps = All (λ p. (m : FinalizedMonth) × (months (period_key p) ≡ some m)) ps

-- The two maps have the same months for the periods.
abbrev pub Agree : Months → Months → List BillingPeriod → Type 0
Agree a b ps = All (λ p. a (period_key p) ≡ b (period_key p)) ps

-- What is in the first map is in the second.
abbrev pub Grows : Months → Months → Type 0
Grows a b = (k : ℕ) (m : FinalizedMonth) → a k ≡ some m → b k ≡ some m

pub keep_month-same :
    (k : ℕ) (m : FinalizedMonth) (months : Months) → keep_month k m months k ≡ some m
keep_month-same k m months = let e : (k == k) ≡ true = ground arith in rw e refl

pub same_key : (j k : ℕ) → (j == k) ≡ true → j ≡ k
same_key j k e = ground arith

put_month-kept :
    (months kept : Months) (j k : ℕ) (m : FinalizedMonth)
    → months k ≡ some m
    → kept k ≡ some m
    → put_month (months j) j kept k ≡ some m
put_month-kept months kept j k m h q = elim (Option-cases (months j)) [
  | inl e ↦ rw e q
  | inr (x, e) ↦ elim (Bool-cases (k == j)) [
    | inl s ↦ rw (e, s) (sym e ∙ ap months (sym (same_key k j s)) ∙ h)
    | inr s ↦ rw (e, s) q
  ]
]

keep_months-kept :
    (months : Months) (ps : List BillingPeriod) (kept : Months) (k : ℕ) (m : FinalizedMonth)
    → months k ≡ some m
    → kept k ≡ some m
    → keep_months months ps kept k ≡ some m
unfolding keep_months
keep_months-kept months [] kept k m h q = q
keep_months-kept months (p ∷ ps) kept k m h q =
    keep_months-kept months ps (put_month (months (period_key p)) (period_key p) kept) k m h
      (put_month-kept months kept (period_key p) k m h q)

put_month-same :
    (months kept : Months) (k : ℕ) (m : FinalizedMonth)
    → months k ≡ some m
    → put_month (months k) k kept k ≡ some m
put_month-same months kept k m e = rw e (keep_month-same k m kept)

pub keep_months-Agree :
    (months : Months) (ps : List BillingPeriod) (kept : Months)
    → AreCached months ps
    → Agree (keep_months months ps kept) months ps
unfolding keep_months
keep_months-Agree months [] kept c = tt
keep_months-Agree months (p ∷ ps) kept ((m, e), c) =
    let later = put_month (months (period_key p)) (period_key p) kept in
    (
      keep_months-kept months ps later (period_key p) m e
            (put_month-same months kept (period_key p) m e)
          ∙ sym e,
      keep_months-Agree months ps later c,
    )

pub cached_months-Agree :
    (a b : Months) (ps : List BillingPeriod)
    → Agree a b ps
    → cached_months a ps ≡ cached_months b ps
unfolding cached_months
cached_months-Agree a b [] h = refl
cached_months-Agree a b (p ∷ ps) (e, h) = ap₂ cons_month e (cached_months-Agree a b ps h)

pub keep_months-same :
    (a b : Months) (ps : List BillingPeriod) (kept : Months)
    → Agree a b ps
    → keep_months a ps kept ≡ keep_months b ps kept
unfolding keep_months
keep_months-same a b [] kept h = refl
keep_months-same a b (p ∷ ps) kept (e, h) =
    ap (λ o. keep_months a ps (put_month o (period_key p) kept)) e
    ∙ keep_months-same a b ps (put_month (b (period_key p)) (period_key p) kept) h
