-- ===== src/Billing/Daily/Loop.antt =====
-- The loop over the days: what a cost adds to the sum.
use qiniu_exporter.Base.{
  List, String, [], ap, arith, eq_iff, false, inl, inr, length, ltb, refl, some, subst, suc, sym,
  true, zero, ℕ, ◌%◌, ◌+◌, ◌-◌, ◌==◌, ◌^◌, ◌∙◌, ◌∷◌, ◌≡◌, ◌≤◌,
}
use qiniu_exporter.Base.Calendar.Dates.{date_of, date_of-month_start, month_length, month_start}
use qiniu_exporter.Base.Result.{>>=-eq-ok, Result, Result-cases, err, ok, ◌>>◌}
use qiniu_exporter.Billing.{BillSnapshot, BillingError, Fixed8, minus_fixed}
use qiniu_exporter.Billing.Daily.{
  DailyEstimate, Estimates, Snapshots, daily_cost, estimates_from, keep_snapshot, snapshot_of,
  validate_currency, with_cost,
}

abbrev pub sum_costs : List DailyEstimate → ℕ
sum_costs [] = 0
sum_costs (e ∷ es) = e.cost + sum_costs es

-- The estimates are of the days from this one on, in this currency.
abbrev pub AreDaily : ℕ → String → List DailyEstimate → Type 0
AreDaily date currency [] = Unit
AreDaily date currency (e ∷ es) =
    (e.date ≡ date) × (e.currency ≡ currency) × AreDaily (suc date) currency es

-- What the loop promises from the day n on, over so many days, behind a base of money.
abbrev pub IsRun : ℕ → ℕ → ℕ → String → Estimates → Type 0
IsRun left n base currency (cache, err e) = Unit
IsRun left n base currency (cache, ok (es, last)) =
    ((sum_costs es + base) % 2 ^ 64 ≡ last.total_money % 2 ^ 64)
    × (length es ≡ left)
    × (last.currency ≡ currency)
    × AreDaily (n - 1) currency es
    × (cache (n + left - 1) ≡ some last)

minus_base :
    (rest current base last : ℕ)
    → (rest + current) % 2 ^ 64 ≡ last % 2 ^ 64
    → (minus_fixed current base + rest + base) % 2 ^ 64 ≡ last % 2 ^ 64
minus_base rest current base last h = omega (arith, h)

-- What a cost adds to a run behind it.
abbrev Adds : ℕ → ℕ → ℕ → Type 0
Adds cost base current =
    (rest last : ℕ)
    → (rest + current) % 2 ^ 64 ≡ last % 2 ^ 64
    → (cost + rest + base) % 2 ^ 64 ≡ last % 2 ^ 64

with_cost-IsRun :
    (left n base : ℕ) (currency : String) (current : BillSnapshot) (cache : Snapshots)
    (later : Estimates) (r : Result BillingError Fixed8)
    → 1 ≤ n
    → ((cost : ℕ)
        → r ≡ ok cost
        → Adds cost base current.total_money × (current.currency ≡ currency))
    → IsRun left (suc n) current.total_money current.currency later
    → IsRun (suc left) n base currency (with_cost n current cache later r)
with_cost-IsRun left n base currency current cache later (err e) pos_n f is = tt
with_cost-IsRun left n base currency current cache (kept, err e) (ok cost) pos_n f is = tt
with_cost-IsRun left n base currency current cache (kept, ok (es, last)) (ok cost) pos_n f
      (sum, len, same, are, at_end) =
    let (adds, same') = f cost refl in
    let last_day : suc n + left - 1 ≡ n + suc left - 1 = omega arith in
    let first_day : suc n - 1 ≡ n = omega arith in
    (
      adds (sum_costs es) last.total_money sum,
      ap suc len,
      same ∙ same',
      (
        refl,
        same',
        subst (λ d. AreDaily d currency es) (omega (arith, pos_n))
            (subst (λ c. AreDaily (suc n - 1) c es) same' are),
      ),
      ap kept (sym last_day) ∙ at_end,
    )

late_cost :
    (date : ℕ) (previous current : BillSnapshot) (cost : ℕ)
    → ltb 2 (date_of date).1 ≡ true
    → (validate_currency current.currency >> daily_cost date previous current) ≡ ok cost
    → Adds cost previous.total_money current.total_money × (current.currency ≡ previous.currency)
unfolding daily_cost
late_cost date previous current cost late h =
    let (u, e, h1) = >>=-eq-ok (validate_currency current.currency) _ h in
    let q : (cost ≡ minus_fixed current.total_money previous.total_money)
        × (current.currency ≡ previous.currency) =
      ground (arith, late, h1, eq_iff previous.currency current.currency) in
    ((λ rest last k. rw q.0 (minus_base rest current.total_money previous.total_money last k)), q.1)

first_cost :
    (date : ℕ) (previous current : BillSnapshot) (cost : ℕ)
    → ltb 2 (date_of date).1 ≡ false
    → (validate_currency current.currency >> daily_cost date previous current) ≡ ok cost
    → Adds cost 0 current.total_money × (current.currency ≡ current.currency)
unfolding daily_cost
first_cost date previous current cost early h =
    let (u, e, h1) = >>=-eq-ok (validate_currency current.currency) _ h in
    let q : cost ≡ current.total_money = ground (arith, early, h1) in
    (λ rest last k. rw q (omega (arith, k)), refl)

module _ (fetch : ℕ → Result BillingError BillSnapshot) where
  -- The loop behind the fetching of a snapshot.
  abbrev go_on : ℕ → ℕ → BillSnapshot → Snapshots → Result BillingError BillSnapshot → Estimates
  go_on left date previous cache fetched = elim fetched [
    | err e ↦ (cache, err e)
    | ok current ↦
        with_cost date current (keep_snapshot date current cache)
          (estimates_from fetch left (suc date) current (keep_snapshot date current cache))
          (validate_currency current.currency >> daily_cost date previous current)
  ]

  kept_at :
      (n : ℕ) (s : BillSnapshot) (cache : Snapshots) → keep_snapshot n s cache (suc n - 1) ≡ some s
  kept_at n s cache = let e : (suc n - 1 == n) ≡ true = ground arith in rw e refl

  late-IsRun :
      (left n m e : ℕ) (previous : BillSnapshot) (cache : Snapshots)
      → n ≡ month_start m + e
      → 2 ≤ e
      → e + left ≤ month_length m
      → cache (n - 1) ≡ some previous
      → IsRun left n previous.total_money previous.currency
          (estimates_from fetch left n previous cache)
  unfolding estimates_from
  late-IsRun zero n m e previous cache at_n two fits kept =
      (omega arith, refl, refl, tt, ap cache (omega arith) ∙ kept)
  late-IsRun (suc left) n m e previous cache at_n two fits kept =
      let of_n : date_of n ≡ (m, suc e) =
        ap date_of at_n ∙ date_of-month_start m e (omega (arith, fits)) in
      let late : ltb 2 (date_of n).1 ≡ true = ground (arith, ap (λ (x : ℕ × ℕ). x.1) of_n) in
      elim (Result-cases (snapshot_of fetch n cache)) [
        | inr (x, q) ↦
            subst (IsRun (suc left) n previous.total_money previous.currency)
              (sym (ap (go_on left n previous cache) q)) tt
        | inl (current, q) ↦
            let cache' = keep_snapshot n current cache in
            subst (IsRun (suc left) n previous.total_money previous.currency)
              (sym (ap (go_on left n previous cache) q))
              (with_cost-IsRun left n previous.total_money previous.currency current cache'
                (estimates_from fetch left (suc n) current cache')
                (validate_currency current.currency >> daily_cost n previous current)
                (omega (arith, at_n, two)) (λ cost h. late_cost n previous current cost late h)
                (late-IsRun left (suc n) m (suc e) current cache' (omega (arith, at_n))
                  (omega arith) (omega (arith, fits)) (kept_at n current cache)))
      ]

  pub first-IsRun :
      (left n m : ℕ) (previous : BillSnapshot) (cache : Snapshots)
      → n ≡ month_start m + 1
      → 1 + suc left ≤ month_length m
      → (currency : String) × IsRun
          (suc left)
          n
          0
          currency
          (estimates_from fetch (suc left) n previous cache)
  unfolding estimates_from
  first-IsRun left n m previous cache at_n fits =
      let of_n : date_of n ≡ (m, 2) =
        ap date_of at_n ∙ date_of-month_start m 1 (omega (arith, fits)) in
      let early : ltb 2 (date_of n).1 ≡ false = ground (arith, ap (λ (x : ℕ × ℕ). x.1) of_n) in
      elim (Result-cases (snapshot_of fetch n cache)) [
        | inr (x, q) ↦
            ("", subst (IsRun (suc left) n 0 "") (sym (ap (go_on left n previous cache) q)) tt)
        | inl (current, q) ↦
            let cache' = keep_snapshot n current cache in
            (
              current.currency,
              subst (IsRun (suc left) n 0 current.currency)
                  (sym (ap (go_on left n previous cache) q))
                  (with_cost-IsRun left n 0 current.currency current cache'
                    (estimates_from fetch left (suc n) current cache')
                    (validate_currency current.currency >> daily_cost n previous current)
                    (omega (arith, at_n)) (λ cost h. first_cost n previous current cost early h)
                    (late-IsRun left (suc n) m 2 current cache' (omega (arith, at_n)) (omega arith)
                      (omega (arith, fits)) (kept_at n current cache))),
            )
      ]
