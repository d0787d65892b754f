-- ===== src/Base/Calendar/Dates.antt =====
-- Dates of the calendar: months are counted from the epoch of `Base.Time`, twelve to a year, so the
-- month m of the year y is the number (y + 399) * 12 + m - 1.
use qiniu_exporter.Base.Tests.{Bool-cases, if◌then◌else◌, ltb}
use Prim.Native.Nat.{ℕ, zero, suc, ◌+◌, ◌-◌, ◌*◌, ◌/◌, ◌%◌, ◌≤◌, ◌<◌}
use mathlib.Core.Path.{◌≡◌, refl, ap, ap₂, ◌∙◌, subst, sym}
use mathlib.Core.Logic.{inl, inr}
use mathlib.Core.Bool.{true, false}
use native.Mathlib.Omega.{arith}
use qiniu_exporter.Base.Calendar.{days_in_month, days_of_months}
use qiniu_exporter.Base.Calendar.Years.{
  days_before, days_of_year, year_split, year_split-days, year_split-days_before,
}

-- The first day of a month: `time.Date` with the day 1, which takes any number for the month.
unfoldable pub month_start : ℕ → ℕ
month_start n = days_before (n / 12) + days_of_months (n / 12 + 1) (n % 12)

-- From the m-th month of a year on, with so many months behind it.
unfoldable pub month_walk : ℕ → ℕ → ℕ → ℕ → ℕ × ℕ
month_walk y zero m d = (m, d)
month_walk y (suc left) m d =
    let later = month_walk y left (suc m) (d - days_in_month y (suc m)) in
    if ltb d (days_in_month y (suc m)) then (m, d) else later

abbrev numbered : ℕ → ℕ × ℕ → ℕ × ℕ
numbered p (m, e) = (p * 12 + m, suc e)

abbrev month_of : ℕ × ℕ → ℕ × ℕ
month_of (p, d) = numbered p (month_walk (p + 1) 11 0 d)

-- `t.Date()` of a day: its month, and its day of the month.
unfoldable pub date_of : ℕ → ℕ × ℕ
date_of n = month_of (year_split n)

-- The days of a month.
abbrev pub month_length : ℕ → ℕ
month_length n = days_in_month (n / 12 + 1) (suc (n % 12))

the_sum : (m end : ℕ) → m + 0 ≡ end → m ≡ end
the_sum m end h = omega (arith, h)

ltb-false : (a b e : ℕ) → ltb (a + b + e) a ≡ false
ltb-false a b e = ground arith

sub_sum : (a b e : ℕ) → a + b + e - a ≡ b + e
sub_sum a b e = omega arith

year_and_month : (n : ℕ) → n / 12 * 12 + n % 12 ≡ n
year_and_month n = omega arith

-- The days of j months behind the first m of a year.
abbrev span : ℕ → ℕ → ℕ → ℕ
span y m zero = 0
span y m (suc j) = days_in_month y (suc m) + span y (suc m) j

span-days_of_months :
    (y m j end : ℕ) → m + j ≡ end → days_of_months y m + span y m j ≡ days_of_months y end
span-days_of_months y m zero end h = omega (arith, ap (days_of_months y) (the_sum m end h))
span-days_of_months y m (suc j) end h =
    omega (arith, span-days_of_months y (suc m) j end (omega (arith, h)))

month_walk-span :
    (y left m j end e : ℕ)
    → j ≤ left
    → m + j ≡ end
    → e < days_in_month y (suc end)
    → month_walk y left m (span y m j + e) ≡ (end, e)
unfolding month_walk
month_walk-span y zero m zero end e le h k =
    ap₂ (λ (a b : ℕ). (a, b)) (the_sum m end h) (omega arith)
month_walk-span y zero m (suc j) end e le h k = absurd (omega arith)
month_walk-span y (suc left) m zero end e le h k =
    let here : m ≡ end = the_sum m end h in
    let inside : ltb (0 + e) (days_in_month y (suc m)) ≡ true =
      subst (λ x. ltb (0 + e) (days_in_month y (suc x)) ≡ true) (sym here) (ground arith) in
    rw inside (ap₂ (λ (a b : ℕ). (a, b)) here (omega arith))
month_walk-span y (suc left) m (suc j) end e le h k =
    let outside : ltb (days_in_month y (suc m) + span y (suc m) j + e) (days_in_month y (suc m))
        ≡ false =
      ltb-false (days_in_month y (suc m)) (span y (suc m) j) e in
    let rest : days_in_month y (suc m) + span y (suc m) j + e - days_in_month y (suc m)
        ≡ span y (suc m) j + e =
      sub_sum (days_in_month y (suc m)) (span y (suc m) j) e in
    rw outside (
      ap (month_walk y left (suc m)) rest
      ∙ month_walk-span y left (suc m) j end e (omega arith) (omega (arith, h)) k)

days_of_12 : (p : ℕ) → days_of_months (p + 1) 12 ≡ days_of_year p
days_of_12 p = ground arith

before_end :
    (p m j e : ℕ)
    → m + suc j ≡ 12
    → e < days_in_month (p + 1) (suc m)
    → days_of_months (p + 1) m + e < days_of_year p
before_end p m j e h k = omega (arith, span-days_of_months (p + 1) m (suc j) 12 h, days_of_12 p)

-- A date of the calendar is found again.
pub date_of-month_start : (n e : ℕ) → e < month_length n → date_of (month_start n + e) ≡ (n, suc e)
unfolding date_of month_start
date_of-month_start n e h =
    let p = n / 12 in
    let m = n % 12 in
    let before : days_of_months (p + 1) m ≡ span (p + 1) 0 m =
      omega (arith, span-days_of_months (p + 1) 0 m m (omega arith)) in
    let sum : days_before p + days_of_months (p + 1) m + e
        ≡ days_before p + (days_of_months (p + 1) m + e) =
      omega arith in
    let walk : month_walk (p + 1) 11 0 (days_of_months (p + 1) m + e) ≡ (m, e) =
      ap (λ x. month_walk (p + 1) 11 0 (x + e)) before
      ∙ month_walk-span (p + 1) 11 0 m m e (omega arith) (omega arith) h in
    ap (λ x. month_of (year_split x)) sum
    ∙ ap month_of (
        year_split-days_before p (days_of_months (p + 1) m + e)
          (before_end p m (11 - m) e (omega arith) h))
    ∙ ap (numbered p) walk
    ∙ ap (λ x. (x, suc e)) (year_and_month n)

month_walk_sound :
    (y left m d : ℕ)
    → d < span y m (suc left)
    → (j : ℕ) × (j ≤ left)
      × (m + j ≡ (month_walk y left m d).0)
      × (span y m j + (month_walk y left m d).1 ≡ d)
      × ((month_walk y left m d).1 < days_in_month y (suc (month_walk y left m d).0))
unfolding month_walk
month_walk_sound y zero m d h = (0, omega arith, omega arith, omega arith, omega arith)
month_walk_sound y (suc left) m d h = elim (Bool-cases (ltb d (days_in_month y (suc m)))) [
  | inl e ↦ rw e (0, omega arith, omega arith, omega arith, ground arith)
  | inr e ↦
      let (j, le, at_j, sum, inside) =
        month_walk_sound y left (suc m) (d - days_in_month y (suc m)) (ground arith) in
      rw e (suc j, omega (arith, le), omega (arith, at_j), ground (arith, sum), inside)
]

month_of_year :
    (p m : ℕ)
    → m < 12
    → (month_start (p * 12 + m) ≡ days_before p + days_of_months (p + 1) m)
      × (month_length (p * 12 + m) ≡ days_in_month (p + 1) (suc m))
unfolding month_start
month_of_year p m h =
    let ep : (p * 12 + m) / 12 ≡ p = omega arith in
    let em : (p * 12 + m) % 12 ≡ m = omega arith in
    (
      ap₂ (λ a b. days_before a + days_of_months (a + 1) b) ep em,
      ap₂ (λ a b. days_in_month (a + 1) (suc b)) ep em,
    )

-- Every day is a day of its month.
pub date_of-days :
    (n : ℕ)
    → (e : ℕ) × ((date_of n).1 ≡ suc e)
      × (e < month_length (date_of n).0)
      × (month_start (date_of n).0 + e ≡ n)
unfolding date_of month_start
date_of-days n =
    let (whole, inside) = year_split-days n in
    let p = (year_split n).0 in
    let d = (year_split n).1 in
    let (j, le, at_j, sum, short) =
      month_walk_sound (p + 1) 11 0 d
        (omega (arith, inside, span-days_of_months (p + 1) 0 12 12 (omega arith), days_of_12 p)) in
    let m = (month_walk (p + 1) 11 0 d).0 in
    let e = (month_walk (p + 1) 11 0 d).1 in
    let (start, len) = month_of_year p m (omega (arith, le, at_j)) in
    let first : days_of_months (p + 1) m ≡ span (p + 1) 0 j =
      omega (arith, span-days_of_months (p + 1) 0 j m at_j) in
    (e, refl, omega (arith, short, len), omega (arith, start, first, sum, whole))

days_in_month_range : (y m : ℕ) → (28 ≤ days_in_month y m) × (days_in_month y m ≤ 31)
days_in_month_range y m = ground arith

-- A month has 28 to 31 days.
pub month_length_range : (n : ℕ) → (28 ≤ month_length n) × (month_length n ≤ 31)
month_length_range n = days_in_month_range (n / 12 + 1) (suc (n % 12))

days_before-suc : (p : ℕ) → days_before (suc p) ≡ days_before p + days_of_year p
days_before-suc p = ground arith

month_in_year :
    (p m : ℕ)
    → m < 11
    → month_start (suc (p * 12 + m)) ≡ month_start (p * 12 + m) + month_length (p * 12 + m)
month_in_year p m h =
    let (here, len) = month_of_year p m (omega arith) in
    let (next, len') = month_of_year p (suc m) (omega arith) in
    let e : suc (p * 12 + m) ≡ p * 12 + suc m = omega arith in
    ap month_start e ∙ omega (arith, here, len, next)

december :
    (p : ℕ)
    → month_start (suc (p * 12 + 11)) ≡ month_start (p * 12 + 11) + month_length (p * 12 + 11)
december p =
    let (here, len) = month_of_year p 11 (omega arith) in
    let (next, len') = month_of_year (suc p) 0 (omega arith) in
    let e : suc (p * 12 + 11) ≡ suc p * 12 + 0 = omega arith in
    ap month_start e ∙ omega (arith, here, len, next, days_before-suc p, days_of_12 p)

-- A month starts where the one before it ends.
pub month_start-suc : (n : ℕ) → month_start (suc n) ≡ month_start n + month_length n
month_start-suc n =
    subst (λ k. month_start (suc k) ≡ month_start k + month_length k) (year_and_month n)
      (elim (Bool-cases (ltb (n % 12) 11)) [
        | inl e ↦ month_in_year (n / 12) (n % 12) (ground arith)
        | inr e ↦
            let last : 11 ≡ n % 12 = ground arith in
            subst
              (λ m.
                month_start (suc (n / 12 * 12 + m))
                ≡ month_start (n / 12 * 12 + m) + month_length (n / 12 * 12 + m))
              last (december (n / 12))
      ])

pub month_start-range : (n : ℕ) → (28 * n ≤ month_start n) × (month_start n ≤ 31 * n)
unfolding month_start
month_start-range zero = (omega arith, omega arith)
month_start-range (suc n) =
    let (low, high) = month_start-range n in
    let (short, long) = month_length_range n in
    (omega (arith, month_start-suc n, low, short), omega (arith, month_start-suc n, high, long))
