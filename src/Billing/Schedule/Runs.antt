-- ===== src/Billing/Schedule/Runs.antt =====
-- The twelve months of the history, and the times of day at which the jobs run.
use mathlib.Core.Path.{ap₂}
use qiniu_exporter.Base.{
  All, Bool-cases, List, [], ap, arith, false, inl, inr, ltb, refl, some, suc, true, zero, ℕ, ◌*◌,
  ◌+◌, ◌-◌, ◌<◌, ◌∙◌, ◌∷◌, ◌≡◌, ◌≤◌,
}
use qiniu_exporter.Base.Calendar.Dates.{
  month_length_range, month_start, month_start-range, month_start-suc,
}
use qiniu_exporter.Base.Time.{day, hour, minute, zero_time}
use qiniu_exporter.Billing.{BillingPeriod}
use qiniu_exporter.Billing.Schedule.{
  last_12_finalized_periods, local_clock, local_day, midnight, month_period, next_shanghai_time,
  periods_until, select_periods, sub_months, today_at, valid_monthly_period,
}
use qiniu_exporter.Billing.Schedule.Periods.{
  add_month-midnight, month_period-valid, select_periods-IsSelection, sub_months-midnight,
}

-- So many months from the month s on.
abbrev pub months_from : ℕ → ℕ → List BillingPeriod
months_from s zero = []
months_from s (suc n) = month_period s ∷ months_from (suc s) n

no_months : (s k : ℕ) → s + 0 ≡ k → s ≡ k
no_months s k h = omega (arith, h)

month_start-le : (s j k : ℕ) → s + j ≡ k → month_start s ≤ month_start k
month_start-le s zero k h = omega (arith, ap month_start (no_months s k h))
month_start-le s (suc j) k h =
    omega (arith, month_start-suc s, month_start-le (suc s) j k (omega (arith, h)))

month_start-lt : (s : ℕ) → 1 ≤ s → midnight (month_start s) < midnight (month_start (suc s))
month_start-lt s h =
    omega (arith, month_start-suc s, (month_length_range s).0, (month_start-range s).0)

periods_until-months_from :
    (fuel j s k : ℕ)
    → 1 ≤ s
    → 1 ≤ k
    → s + j ≡ suc k
    → j + 1 ≤ fuel
    → periods_until fuel (midnight (month_start k)) (midnight (month_start s))
      ≡ some (months_from s j)
unfolding periods_until
periods_until-months_from zero j s k h hk e enough = absurd (omega arith)
periods_until-months_from (suc fuel) zero s k h hk e enough =
    let same : s ≡ suc k = no_months s (suc k) e in
    let after : ltb (midnight (month_start k)) (midnight (month_start s)) ≡ true =
      ground (arith, ap month_start same, month_start-lt k hk) in
    rw after refl
periods_until-months_from (suc fuel) (suc j) s k h hk e enough =
    let not_after : ltb (midnight (month_start k)) (midnight (month_start s)) ≡ false =
      ground (arith, month_start-le s j k (omega (arith, e))) in
    let stepped = add_month-midnight s h in
    let behind =
      periods_until-months_from fuel j (suc s) k (omega arith) hk (omega (arith, e))
        (omega arith) in
    rw (not_after, stepped, behind)
      (ap
        (λ x.
          some (record { start_at = midnight (month_start s); end_at = x } ∷ months_from (suc s) j))
        stepped)

months_from-valid : (n s : ℕ) → 1 ≤ s → All (λ p. valid_monthly_period p ≡ true) (months_from s n)
months_from-valid zero s h = tt
months_from-valid (suc n) s h = (month_period-valid s h, months_from-valid n (suc s) (omega arith))

-- The fuel is enough: `Last12FinalizedPeriods` returns exactly the twelve months that end with the
-- finalized one, the oldest first, each of them a month that `BillDetail` accepts.
pub last_12-months_from :
    (now : ℕ)
    → zero_time ≤ now
    → (k : ℕ) × ((select_periods now).finalized ≡ month_period (k + 11))
      × (last_12_finalized_periods now ≡ some (months_from k 12))
      × All (λ p. valid_monthly_period p ≡ true) (months_from k 12)
unfolding last_12_finalized_periods
last_12-months_from now h =
    let is = select_periods-IsSelection now h in
    let m = is.month in
    let latest : (select_periods now).finalized.start_at ≡ midnight (month_start m) =
      ap (λ (p : BillingPeriod). p.start_at) is.is_month in
    let first : sub_months 11 (select_periods now).finalized.start_at
        ≡ midnight (month_start (m - 11)) =
      ap (sub_months 11) latest ∙ sub_months-midnight 11 m (omega (arith, is.late)) in
    let same : m ≡ m - 11 + 11 = omega (arith, is.late) in
    (
      m - 11,
      is.is_month ∙ ap month_period same,
      ap₂ (periods_until 13) latest first
          ∙ periods_until-months_from 13 12 (m - 11) m (omega (arith, is.late))
              (omega (arith, is.late)) (omega (arith, is.late)) (omega arith),
      months_from-valid 12 (m - 11) (omega (arith, is.late)),
    )

clock_at :
    (n clock : ℕ)
    → 1 ≤ n
    → clock < day
    → (local_clock (midnight n + clock) ≡ clock) × (local_clock (midnight n + clock + day) ≡ clock)
clock_at n clock h k = (omega arith, omega arith)

ahead : (now target : ℕ) → now ≤ target → now + (target - now) ≡ target
ahead now target h = omega arith

-- A job that runs at a time of day in Asia/Shanghai runs next when the clock there shows that time,
-- later than now and within a day.
pub next_shanghai_time-lands :
    (at_hour at_minute now : ℕ)
    → at_hour < 24
    → at_minute < 60
    → zero_time ≤ now
    → (0 < next_shanghai_time at_hour at_minute now)
      × (next_shanghai_time at_hour at_minute now ≤ day)
      × (local_clock (now + next_shanghai_time at_hour at_minute now)
          ≡ at_hour * hour + at_minute * minute)
unfolding next_shanghai_time
next_shanghai_time-lands at_hour at_minute now hh hm h =
    let clock = at_hour * hour + at_minute * minute in
    let (today, tomorrow) =
      clock_at (local_day now) clock (omega (arith, h)) (omega (arith, hh, hm)) in
    elim (Bool-cases (ltb now (today_at now at_hour at_minute))) [
      | inl q ↦
          let early : now < today_at now at_hour at_minute = ground arith in
          rw q (
            omega (arith, early),
            omega arith,
            ap local_clock (ahead now (today_at now at_hour at_minute) (omega (arith, early)))
                ∙ today,
          )
      | inr q ↦
          let late : today_at now at_hour at_minute ≤ now = ground arith in
          rw q (
            omega arith,
            omega (arith, late),
            ap local_clock (ahead now (today_at now at_hour at_minute + day) (omega arith))
                ∙ tomorrow,
          )
    ]
