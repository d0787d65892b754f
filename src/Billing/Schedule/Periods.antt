-- ===== src/Billing/Schedule/Periods.antt =====
-- The finance periods: that they are months, and how they lie to the time at which they are asked for.
use mathlib.Core.Path.{ap₂}
use qiniu_exporter.Base.{
  Bool-cases, ap, arith, false, if◌then◌else◌, inl, inr, leb, ltb, refl, suc, sym, true, ℕ, ◌*◌,
  ◌+◌, ◌-◌, ◌<◌, ◌==◌, ◌∙◌, ◌≡◌, ◌≤◌,
}
use qiniu_exporter.Base.Calendar.Dates.{
  date_of, date_of-days, date_of-month_start, month_length, month_length_range, month_start,
  month_start-range, month_start-suc,
}
use qiniu_exporter.Base.Time.{day, zero_time}
use qiniu_exporter.Billing.{BillingPeriod}
use qiniu_exporter.Billing.Schedule.{
  PeriodSelection, add_month, billing_midnight, finalized_period, in_month, local_clock, local_day,
  midnight, month_period, ready_clock, select_periods, sub_months, valid_monthly_period,
}

local_day-midnight : (n : ℕ) → 1 ≤ n → (local_day (midnight n) ≡ n) × (local_clock (midnight n) ≡ 0)
local_day-midnight n h = (omega arith, omega arith)

pub date_of-midnight : (k : ℕ) → 1 ≤ k → date_of (local_day (midnight (month_start k))) ≡ (k, 1)
date_of-midnight k h =
    let (low, high) = month_start-range k in
    let (short, long) = month_length_range k in
    let start : month_start k + 0 ≡ month_start k = omega arith in
    let (same, clock) = local_day-midnight (month_start k) (omega (arith, low)) in
    ap date_of (same ∙ sym start) ∙ date_of-month_start k 0 (omega (arith, short))

in_month-midnight :
    (k next : ℕ) → 1 ≤ k → in_month next (midnight (month_start k)) ≡ midnight (month_start next)
in_month-midnight k next h =
    let (low, high) = month_start-range k in
    let (same, clock) = local_day-midnight (month_start k) (omega (arith, low)) in
    ap₂ (λ (d : ℕ × ℕ) (c : ℕ). midnight (month_start next + (d.1 - 1)) + c) (date_of-midnight k h)
      clock
    ∙ omega arith

pub add_month-midnight :
    (k : ℕ) → 1 ≤ k → add_month (midnight (month_start k)) ≡ midnight (month_start (suc k))
unfolding add_month
add_month-midnight k h =
    ap (λ (d : ℕ × ℕ). in_month (suc d.0) (midnight (month_start k))) (date_of-midnight k h)
    ∙ in_month-midnight k (suc k) h

pub sub_months-midnight :
    (n k : ℕ) → 1 ≤ k → sub_months n (midnight (month_start k)) ≡ midnight (month_start (k - n))
unfolding sub_months
sub_months-midnight n k h =
    ap (λ (d : ℕ × ℕ). in_month (d.0 - n) (midnight (month_start k))) (date_of-midnight k h)
    ∙ in_month-midnight k (k - n) h

eq_true : (a b : ℕ) → a ≡ b → (a == b) ≡ true
eq_true a b h = ground arith

pub month_period-valid : (k : ℕ) → 1 ≤ k → valid_monthly_period (month_period k) ≡ true
unfolding valid_monthly_period
month_period-valid k h =
    let start = midnight (month_start k) in
    let end = midnight (month_start (suc k)) in
    let (low, high) = month_start-range k in
    let (low', high') = month_start-range (suc k) in
    let (same, clock) = local_day-midnight (month_start k) (omega (arith, low)) in
    let (same', clock') = local_day-midnight (month_start (suc k)) (omega (arith, low')) in
    let e1 = eq_true start (billing_midnight start) (ap midnight (sym same)) in
    let e2 =
      eq_true (date_of (local_day start)).1 1 (ap (λ (d : ℕ × ℕ). d.1) (date_of-midnight k h)) in
    let e3 = eq_true end (billing_midnight end) (ap midnight (sym same')) in
    let e4 =
      eq_true (date_of (local_day end)).1 1
        (ap (λ (d : ℕ × ℕ). d.1) (date_of-midnight (suc k) (omega arith))) in
    let e5 = eq_true end (add_month start) (sym (add_month-midnight k h)) in
    rw (e1, e2, e3, e4, e5) refl

-- The month that is finalized on the d-th day of a month.
abbrev final_month : ℕ → ℕ → ℕ
final_month month d = if leb d 4 then month - 2 else month - 1

finalized_period-month :
    (month d : ℕ) → 2 ≤ month → finalized_period month d ≡ month_period (final_month month d)
finalized_period-month month d h =
    let e : suc (month - 2) ≡ month - 1 = omega arith in
    let e' : suc (month - 1) ≡ month = omega arith in
    elim (Bool-cases (leb d 4)) [ inl q ↦ rw (q, e) refl | inr q ↦ rw (q, e') refl ]

-- The end of that month lies four to thirty-four days before.
finalized_distance :
    (month e : ℕ)
    → 2 ≤ month
    → e < month_length month
    → (month_start (suc (final_month month (suc e))) + 4 ≤ month_start month + e)
      × (month_start month + e ≤ month_start (suc (final_month month (suc e))) + 34)
finalized_distance month e h inside =
    let (short, long) = month_length_range month in
    let (short', long') = month_length_range (month - 1) in
    let same : suc (month - 1) ≡ month = omega arith in
    let before : month_start month ≡ month_start (month - 1) + month_length (month - 1) =
      ap month_start (sym same) ∙ month_start-suc (month - 1) in
    elim (Bool-cases (leb (suc e) 4)) [
      | inl q ↦
          let early : suc (month - 2) ≡ month - 1 = omega arith in
          rw (q, early) (omega (arith, before, short'), ground (arith, before, long'))
      | inr q ↦ rw (q, same) (ground arith, omega (arith, long))
    ]

-- What holds of the selection at the time now.
pub record IsSelection (now : ℕ) (s : PeriodSelection) : Type 0 where
  pub month : ℕ
  pub late : 12 ≤ month
  pub is_month : s.finalized ≡ month_period month
  pub valid : valid_monthly_period s.finalized ≡ true
  pub settled : s.finalized.end_at + 4 * day ≤ billing_midnight now
  pub recent : billing_midnight now ≤ s.finalized.end_at + 34 * day
  pub ready :
      s.snapshot_ready ≡ true
      → (s.snapshot_date + ready_clock ≤ now)
        × (now < s.snapshot_date + day + day)
        × ((date_of (local_day s.snapshot_date)).0 ≡ (date_of (local_day now)).0)
  pub unready : s.snapshot_ready ≡ false → (date_of (local_day now)).1 ≡ 1

late_month : (now : ℕ) → zero_time ≤ now → 14 ≤ (date_of (local_day now)).0
late_month now h =
    let (e, at_e, inside, sum) = date_of-days (local_day now) in
    let (low, high) = month_start-range (date_of (local_day now)).0 in
    let (short, long) = month_length_range (date_of (local_day now)).0 in
    let late : 146_097 ≤ local_day now = omega (arith, h) in
    omega (arith, late, sum, high, inside, long)

select_periods-finalized :
    (now : ℕ)
    → (select_periods now).finalized
      ≡ finalized_period (date_of (local_day now)).0 (date_of (local_day now)).1
unfolding select_periods
select_periods-finalized now = ground arith

-- The snapshot's day is today or yesterday, of the same month.
select_periods-ready :
    (now e : ℕ)
    → 2 ≤ local_day now
    → (date_of (local_day now)).1 ≡ suc e
    → e < month_length (date_of (local_day now)).0
    → month_start (date_of (local_day now)).0 + e ≡ local_day now
    → (select_periods now).snapshot_ready ≡ true
    → ((select_periods now).snapshot_date + ready_clock ≤ now)
      × (now < (select_periods now).snapshot_date + day + day)
      × ((date_of (local_day (select_periods now).snapshot_date)).0 ≡ (date_of (local_day now)).0)
unfolding select_periods
select_periods-ready now e h at_e inside sum =
    elim (Bool-cases (leb (billing_midnight now + ready_clock) now)) [
      | inl q ↦ rw q (λ _. (
        ground arith,
        omega arith,
        ap (λ n. (date_of n).0) (local_day-midnight (local_day now) (omega arith)).0,
      ))
      | inr q ↦ elim (Bool-cases (ltb 1 (date_of (local_day now)).1)) [
        | inl q' ↦
            let before : local_day now - 1 ≡ month_start (date_of (local_day now)).0 + (e - 1) =
              ground (arith, sum, at_e) in
            rw (q, q')
              (λ _. (
                omega arith,
                omega arith,
                ap (λ n. (date_of n).0)
                      ((local_day-midnight (local_day now - 1) (omega arith)).0 ∙ before)
                    ∙ ap (λ (x : ℕ × ℕ). x.0)
                        (date_of-month_start (date_of (local_day now)).0 (e - 1) (omega arith)),
              ))
        | inr q' ↦ rw (q, q') (λ r. absurd (cc))
      ]
    ]

select_periods-unready :
    (now : ℕ)
    → 1 ≤ (date_of (local_day now)).1
    → (select_periods now).snapshot_ready ≡ false
    → (date_of (local_day now)).1 ≡ 1
unfolding select_periods
select_periods-unready now h r = ground arith

-- At any time of the calendar, the finalized period is a whole month in Asia/Shanghai, one that
-- `BillDetail` accepts, and it ended four to thirty-four days before today's midnight. A snapshot
-- date that is ready lies in the current month and became available, at 08:15 of its day, by now and
-- less than two days after it began; only on the first of a month is none ready.
pub select_periods-IsSelection : (now : ℕ) → zero_time ≤ now → IsSelection now (select_periods now)
select_periods-IsSelection now h =
    let (e, at_e, inside, sum) = date_of-days (local_day now) in
    let month = (date_of (local_day now)).0 in
    let d = (date_of (local_day now)).1 in
    let late = late_month now h in
    let same =
      select_periods-finalized now ∙ finalized_period-month month d (omega (arith, late)) in
    let (settled, recent) = finalized_distance month e (omega (arith, late)) inside in
    let k = final_month month d in
    let k_e : k ≡ final_month month (suc e) = ap (final_month month) at_e in
    let k_late : 12 ≤ k = ground (arith, late) in
    let end : (select_periods now).finalized.end_at
        ≡ midnight (month_start (suc (final_month month (suc e)))) =
      ap (λ (p : BillingPeriod). p.end_at) same ∙ ap (λ m. midnight (month_start (suc m))) k_e in
    record {
      month = k;
      late = k_late;
      is_month = same;
      valid = ap valid_monthly_period same ∙ month_period-valid k (omega (arith, k_late));
      settled = rw end (omega (arith, settled, sum));
      recent = rw end (omega (arith, recent, sum, h));
      ready = select_periods-ready now e (omega (arith, h)) at_e inside sum;
      unready = select_periods-unready now (omega (arith, at_e));
    }
