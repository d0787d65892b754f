-- ===== src/Base/Calendar.antt =====
-- The proleptic Gregorian calendar of the time package in a location of one fixed offset, and the
-- timestamps that the source reads. A day number counts from the epoch of `Base.Time`, the start of
-- the year -399; years are those that four digits spell.
pub mod Layouts
pub mod Years
pub mod Dates
use qiniu_exporter.Base.{
  Bool, if◌then◌else◌, not, suc, zero, ℕ, ◌%◌, ◌&&◌, ◌*◌, ◌+◌, ◌-◌, ◌/◌, ◌==◌, ◌||◌,
}
use qiniu_exporter.Base.Time.{hour, minute, second}

-- A *time.Location with one offset east of UTC, in nanoseconds. Asia/Shanghai has been +08:00
-- since 1991.
pub record Location : Type 0 where
  pub offset : ℕ

abbrev pub shanghai : Location
shanghai = record { offset = 8 * hour }

-- `t.In(location)`, as the nanoseconds that the location's clock shows.
abbrev pub wall : Location → ℕ → ℕ
wall location t = t + location.offset

abbrev pub clock_hour : ℕ → ℕ
clock_hour w = w / hour % 24

abbrev pub clock_minute : ℕ → ℕ
clock_minute w = w / minute % 60

abbrev pub clock_second : ℕ → ℕ
clock_second w = w / second % 60

abbrev pub clock_nanosecond : ℕ → ℕ
clock_nanosecond w = w % second

abbrev pub is_leap : ℕ → Bool
is_leap y = y % 4 == 0 && (not (y % 100 == 0) || y % 400 == 0)

abbrev pub days_in_month : ℕ → ℕ → ℕ
days_in_month y m =
    if m == 4 || m == 6 || m == 9 || m == 11
    then 30
    else if m == 2
    then (if is_leap y then 29 else 28)
    else 31

-- The days of the months 1 to n of a year.
abbrev pub days_of_months : ℕ → ℕ → ℕ
days_of_months y zero = 0
days_of_months y (suc n) = days_of_months y n + days_in_month y (suc n)

abbrev pub days_before_year : ℕ → ℕ
days_before_year y = let p = y + 399 in p * 365 + p / 4 - p / 100 + p / 400

-- The day number of a date of the calendar.
unfoldable pub day_number : ℕ → ℕ → ℕ → ℕ
day_number y m d = days_before_year y + days_of_months y (m - 1) + (d - 1)
