-- ===== src/Base/Calendar/Layouts.antt =====
-- `time.ParseInLocation(layout, raw, location)` followed by the test that formatting the result
-- gives `raw` back, for the three layouts of the source: the text has the layout's exact shape and
-- its fields are in range. `none` is a failure of either.
use qiniu_exporter.Base.{
  List, Option, String, [], if◌then◌else◌, leb, ltb, none, refl, some, suc, zero, ℕ, ◌&&◌, ◌*◌, ◌+◌,
  ◌-◌, ◌==◌, ◌∷◌, ◌≡◌,
}
use qiniu_exporter.Base.Calendar.{Location, day_number, days_in_month, shanghai}
use qiniu_exporter.Base.Sorting.{codes}
use qiniu_exporter.Base.Time.{day, hour, minute, second, zero_time}

-- A value and the text that is left.
abbrev Reading : Type 0
Reading = Option (ℕ × List ℕ)

digit : ℕ → Option ℕ
digit c = if leb b'0' c && leb c b'9' then some (c - b'0') else none

-- Exactly n digits, behind the number read so far.
digits : ℕ → ℕ → List ℕ → Reading
unfolding digit
digits zero acc s = some (acc, s)
digits (suc n) acc [] = none
digits (suc n) acc (c ∷ s) = elim (digit c) [ none ↦ none | some v ↦ digits n (10 * acc + v) s ]

-- The same, behind one character that must be `mark`.
marked : ℕ → ℕ → List ℕ → Reading
unfolding digits
marked mark n [] = none
marked mark n (c ∷ s) = if c == mark then digits n 0 s else none

infixl 5 ◌and_then◌
abbrev ◌and_then◌ {ℓ} : {A : Type ℓ} → Reading → (ℕ → List ℕ → Option A) → Option A
none and_then f = none
some (n, s) and_then f = f n s

abbrev ends : List ℕ → ℕ → Option ℕ
ends [] t = some t
ends (c ∷ s) t = none

-- The day number of a date, and the text that is left.
read_date : List ℕ → Reading
unfolding digits marked day_number
read_date s = digits 4 0 s and_then λ y s1. marked b'-' 2 s1 and_then λ m s2.
    marked b'-' 2 s2 and_then λ d s3.
    if leb 1 m && leb m 12 && leb 1 d && leb d (days_in_month y m)
    then some (day_number y m d, s3)
    else none

instant : Location → ℕ → ℕ → ℕ → ℕ → Option ℕ
instant location days h mi s =
    if ltb h 24 && ltb mi 60 && ltb s 60
    then some (days * day + h * hour + mi * minute + s * second - location.offset)
    else none

pub data Layout : Type 0 where
  monitoring_layout analytics_layout date_layout : Layout

-- 2006-01-02 15:04:05, 2006-01-02-15-04 and 2006-01-02.
unfoldable pub parse_in_location : Layout → Location → String → Option ℕ
unfolding read_date marked instant
parse_in_location monitoring_layout location raw = read_date (codes raw) and_then λ days s1.
    marked b' ' 2 s1 and_then λ h s2. marked b':' 2 s2 and_then λ mi s3.
    marked b':' 2 s3 and_then λ s s4. elim (ends s4 0) [
      | none ↦ none
      | some _ ↦ instant location days h mi s
    ]
parse_in_location analytics_layout location raw = read_date (codes raw) and_then λ days s1.
    marked b'-' 2 s1 and_then λ h s2. marked b'-' 2 s2 and_then λ mi s3. elim (ends s3 0) [
      | none ↦ none
      | some _ ↦ instant location days h mi 0
    ]
parse_in_location date_layout location raw = read_date (codes raw) and_then λ days s1.
    elim (ends s1 0) [ none ↦ none | some _ ↦ instant location days 0 0 0 ]

noon_in_shanghai :
    parse_in_location monitoring_layout shanghai "2026-03-01 12:00:00"
    ≡ some (day_number 2026 3 1 * day + 4 * hour)
unfolding parse_in_location day_number
noon_in_shanghai = refl

first_day : parse_in_location date_layout (record { offset = 0 }) "0001-01-01" ≡ some zero_time
unfolding parse_in_location
first_day = refl

no_such_day : parse_in_location analytics_layout shanghai "2026-02-29-00-05" ≡ none
unfolding parse_in_location
no_such_day = refl
