-- ===== src/Base/Calendar/Years.antt =====
-- Years counted from the epoch of `Base.Time`: the year p of this count is the year p - 399 of the
-- calendar and has the days of the year p + 1, which is 400 years later.
use qiniu_exporter.Base.Tests.{if◌then◌else◌}
use Prim.Native.Nat.{ℕ, ◌+◌, ◌-◌, ◌*◌, ◌/◌, ◌%◌, ◌≤◌, ◌<◌, min}
use mathlib.Core.Path.{◌≡◌, ap, ap₂, ◌∙◌, subst, sym}
use mathlib.Core.Logic.{◌⊎◌}
use native.Mathlib.Omega.{arith}
use qiniu_exporter.Base.Calendar.{is_leap}

abbrev pub days_before : ℕ → ℕ
days_before p = p * 365 + p / 4 - p / 100 + p / 400

abbrev pub days_of_year : ℕ → ℕ
days_of_year p = if is_leap (p + 1) then 366 else 365

-- The year of a day, and the days of that year before it: 400, 100, four and one years at a time.
unfoldable split_years : ℕ → ℕ → ℕ × ℕ
split_years base t = let k = min (t / 365) 3 in (base + k, t - k * 365)

unfoldable split_fours : ℕ → ℕ → ℕ × ℕ
unfolding split_years
split_fours base s = split_years (base + s / 1_461 * 4) (s - s / 1_461 * 1_461)

unfoldable split_centuries : ℕ → ℕ → ℕ × ℕ
unfolding split_fours
split_centuries base r = let c = min (r / 36_524) 3 in split_fours (base + c * 100) (r - c * 36_524)

unfoldable pub year_split : ℕ → ℕ × ℕ
unfolding split_centuries
year_split n = split_centuries (n / 146_097 * 400) (n % 146_097)

-- A year in its cycles: c centuries, q fours and k years behind a cycles of 400.
abbrev year_of : ℕ → ℕ → ℕ → ℕ → ℕ
year_of a c q k = a * 400 + c * 100 + q * 4 + k

abbrev IsCycles : ℕ → ℕ → ℕ → Type 0
IsCycles c q k = (c ≤ 3) × (q ≤ 24) × (k ≤ 3)

-- The last day of a year of 366 days.
abbrev IsLeapDay : ℕ → ℕ → ℕ → ℕ → Type 0
IsLeapDay c q k d = (d < 365) ⊎ ((d ≡ 365) × (k ≡ 3) × ((q < 24) ⊎ (c ≡ 3)))

days_before-cycles :
    (a c q k : ℕ)
    → IsCycles c q k
    → days_before (year_of a c q k) ≡ a * 146_097 + c * 36_524 + q * 1_461 + k * 365
days_before-cycles a c q k (hc, hq, hk) =
    let e4 : year_of a c q k / 4 ≡ a * 100 + c * 25 + q = omega arith in
    let e100 : year_of a c q k / 100 ≡ a * 4 + c = omega arith in
    let e400 : year_of a c q k / 400 ≡ a = omega arith in rw (e4, e100, e400) (omega arith)

split_years-eq :
    (base k d : ℕ)
    → k ≤ 3
    → (d < 365) ⊎ ((d ≡ 365) × (k ≡ 3))
    → split_years base (k * 365 + d) ≡ (base + k, d)
unfolding split_years
split_years-eq base k d hk h =
    let e : min ((k * 365 + d) / 365) 3 ≡ k = omega (arith, h) in
    ap₂ (λ (x y : ℕ). (x, y)) (ap (λ x. base + x) e) (omega (arith, e))

split_fours-eq :
    (base q t : ℕ) → t < 1_461 → split_fours base (q * 1_461 + t) ≡ split_years (base + q * 4) t
unfolding split_fours
split_fours-eq base q t h =
    let e : (q * 1_461 + t) / 1_461 ≡ q = omega arith in
    ap₂ split_years (ap (λ x. base + x * 4) e) (omega (arith, e))

split_centuries-eq :
    (base c s : ℕ)
    → c ≤ 3
    → (s < 36_524) ⊎ ((s ≡ 36_524) × (c ≡ 3))
    → split_centuries base (c * 36_524 + s) ≡ split_fours (base + c * 100) s
unfolding split_centuries
split_centuries-eq base c s hc h =
    let e : min ((c * 36_524 + s) / 36_524) 3 ≡ c = omega (arith, h) in
    ap₂ split_fours (ap (λ x. base + x * 100) e) (omega (arith, e))

split-cycles :
    (a c q k d : ℕ)
    → IsCycles c q k
    → IsLeapDay c q k d
    → year_split (a * 146_097 + (c * 36_524 + (q * 1_461 + (k * 365 + d)))) ≡ (year_of a c q k, d)
unfolding year_split
split-cycles a c q k d (hc, hq, hk) leap =
    let s = q * 1_461 + (k * 365 + d) in
    let r = c * 36_524 + s in
    let e : (a * 146_097 + r) / 146_097 ≡ a = omega (arith, leap) in
    let e' : (a * 146_097 + r) % 146_097 ≡ r = omega (arith, leap) in
    ap₂ split_centuries (ap (λ x. x * 400) e) e'
    ∙ split_centuries-eq (a * 400) c s hc (omega (arith, leap))
    ∙ split_fours-eq (a * 400 + c * 100) q (k * 365 + d) (omega (arith, leap))
    ∙ split_years-eq (a * 400 + c * 100 + q * 4) k d hk (omega (arith, leap))

leap-cycles :
    (a c q k d : ℕ) → IsCycles c q k → d < days_of_year (year_of a c q k) → IsLeapDay c q k d
leap-cycles a c q k d (hc, hq, hk) h =
    let e4 : (year_of a c q k + 1) % 4 ≡ (k + 1) % 4 = omega arith in
    let e100 : (year_of a c q k + 1) % 100 ≡ (q * 4 + k + 1) % 100 = omega arith in
    let e400 : (year_of a c q k + 1) % 400 ≡ (c * 100 + q * 4 + k + 1) % 400 = omega arith in
    ground (arith, h, e4, e100, e400)

cycles-leap :
    (a c q k d : ℕ) → IsCycles c q k → IsLeapDay c q k d → d < days_of_year (year_of a c q k)
cycles-leap a c q k d (hc, hq, hk) h =
    let e4 : (year_of a c q k + 1) % 4 ≡ (k + 1) % 4 = omega arith in
    let e100 : (year_of a c q k + 1) % 100 ≡ (q * 4 + k + 1) % 100 = omega arith in
    let e400 : (year_of a c q k + 1) % 400 ≡ (c * 100 + q * 4 + k + 1) % 400 = omega arith in
    ground (arith, h, e4, e100, e400)

-- Every year is made of its cycles.
IsCycles-of :
    (p : ℕ) → (a : ℕ) × (c : ℕ) × (q : ℕ) × (k : ℕ) × IsCycles c q k × (p ≡ year_of a c q k)
IsCycles-of p = (
  p / 400,
  p % 400 / 100,
  p % 100 / 4,
  p % 4,
  (omega arith, omega arith, omega arith),
  omega arith,
)

-- The d-th day of the year p, counted from zero, is found again.
pub year_split-days_before :
    (p d : ℕ) → d < days_of_year p → year_split (days_before p + d) ≡ (p, d)
year_split-days_before p d h =
    let (a, c, q, k, cycles, e) = IsCycles-of p in
    let h' = subst (λ x. d < days_of_year x) e h in
    let n : days_before p + d ≡ a * 146_097 + (c * 36_524 + (q * 1_461 + (k * 365 + d))) =
      ap (λ x. days_before x + d) e ∙ omega (arith, days_before-cycles a c q k cycles) in
    ap year_split n
    ∙ split-cycles a c q k d cycles (leap-cycles a c q k d cycles h')
    ∙ ap (λ x. (x, d)) (sym e)

fits-IsCycles :
    (n a r c s q t k d : ℕ)
    → n ≡ a * 146_097 + r
    → r < 146_097
    → c ≤ 3
    → (r ≡ c * 36_524 + s) × ((s < 36_524) ⊎ ((s ≡ 36_524) × (c ≡ 3)))
    → (s ≡ q * 1_461 + t) × (t < 1_461)
    → k ≤ 3
    → (t ≡ k * 365 + d) × ((d < 365) ⊎ ((d ≡ 365) × (k ≡ 3)))
    → IsCycles c q k
      × IsLeapDay c q k d
      × (n ≡ a * 146_097 + (c * 36_524 + (q * 1_461 + (k * 365 + d))))
fits-IsCycles n a r c s q t k d hn hr hc (er, hs) (es, ht) hk (et, hd) =
    ((omega arith, omega arith, omega arith), omega arith, omega arith)

day_of-IsCycles :
    (n : ℕ)
    → (a : ℕ) × (c : ℕ) × (q : ℕ) × (k : ℕ) × (d : ℕ) × IsCycles c q k
      × IsLeapDay c q k d
      × (n ≡ a * 146_097 + (c * 36_524 + (q * 1_461 + (k * 365 + d))))
day_of-IsCycles n =
    let r = n % 146_097 in
    let c = min (r / 36_524) 3 in
    let s = r - c * 36_524 in
    let q = s / 1_461 in
    let t = s - q * 1_461 in
    let k = min (t / 365) 3 in
    let of_s : (r ≡ c * 36_524 + s) × ((s < 36_524) ⊎ ((s ≡ 36_524) × (c ≡ 3))) = omega arith in
    let of_t : (s ≡ q * 1_461 + t) × (t < 1_461) = omega arith in
    let of_k : (t ≡ k * 365 + (t - k * 365))
        × ((t - k * 365 < 365) ⊎ ((t - k * 365 ≡ 365) × (k ≡ 3))) =
      omega arith in
    let (cycles, leap, e) =
      fits-IsCycles n (n / 146_097) r c s q t k (t - k * 365) (omega arith) (omega arith)
        (omega arith) of_s of_t (omega arith) of_k in
    (n / 146_097, c, q, k, t - k * 365, cycles, leap, e)

-- Every day is a day of its year.
pub year_split-days :
    (n : ℕ)
    → (days_before (year_split n).0 + (year_split n).1 ≡ n)
      × ((year_split n).1 < days_of_year (year_split n).0)
year_split-days n =
    let (a, c, q, k, d, cycles, leap, e) = day_of-IsCycles n in
    let split : year_split n ≡ (year_of a c q k, d) =
      ap year_split e ∙ split-cycles a c q k d cycles leap in
    subst (λ (x : ℕ × ℕ). (days_before x.0 + x.1 ≡ n) × (x.1 < days_of_year x.0)) (sym split)
      (omega (arith, days_before-cycles a c q k cycles, e), cycles-leap a c q k d cycles leap)
