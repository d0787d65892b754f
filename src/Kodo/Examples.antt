-- ===== src/Kodo/Examples.antt =====
-- The theorems on the Kodo points at concrete inputs: five-minute points from the start of the
-- epoch's second day on, whole numbers for float64.
use qiniu_exporter.Base.{List, [], get_elem?, none, refl, some, suc, ℕ, ◌*◌, ◌+◌, ◌∷◌, ◌≡◌}
use qiniu_exporter.Base.Floats.Whole.{Whole, fin, whole_floats}
use qiniu_exporter.Base.Result.{err}
use qiniu_exporter.Base.Time.{day, minute}
use qiniu_exporter.Kodo.{
  MonthToDateQuery, Point, bucket_width, non_continuous, select_latest_safe_rate_5min,
  sum_month_to_date_daily_usage,
}
use qiniu_exporter.Kodo.Month.{AreDays, sum_month_to_date_daily_usage-AreDays, total_of}
use qiniu_exporter.Kodo.Newest.{IsNewest, select_latest_safe_rate_5min-IsNewest}

abbrev at_minute : ℕ → ℕ → Point Whole
at_minute n v = record { time = day + n * minute; value = fin v }

-- The last point's bucket has not ended by minute 12.
abbrev points : List (Point Whole)
points = at_minute 0 4 ∷ at_minute 5 7 ∷ at_minute 10 9 ∷ []

select_latest_safe_rate_5min-IsNewest_example :
    (i : ℕ) × (q : Point Whole) × IsNewest whole_floats points
      (day + 12 * minute)
      (suc i)
      (at_minute 5 7)
    × (get_elem? points i ≡ some q)
    × (day + 5 * minute ≡ q.time + bucket_width)
unfolding select_latest_safe_rate_5min
select_latest_safe_rate_5min-IsNewest_example =
    select_latest_safe_rate_5min-IsNewest whole_floats points (day + 12 * minute)
      {p = at_minute 5 7} refl

-- A gap before the newest point is an error, though an older pair is there.
gap_refused :
    select_latest_safe_rate_5min whole_floats
      (at_minute 0 4 ∷ at_minute 5 7 ∷ at_minute 15 9 ∷ [])
      (day + 20 * minute)
    ≡ err non_continuous
unfolding select_latest_safe_rate_5min
gap_refused = refl

abbrev month : MonthToDateQuery
month = record {
  bucket = "logs";
  region = "z0";
  begin_at = 10 * day;
  end_at = 13 * day;
  location = record { offset = 0 };
}

abbrev days : List (Point Whole)
days = record { time = 10 * day; value = fin 5 } ∷ record { time = 12 * day; value = fin 6 } ∷ []

sum_month_to_date_daily_usage-AreDays_example :
    AreDays whole_floats month none days × (fin 11 ≡ total_of whole_floats (fin 0) days)
unfolding sum_month_to_date_daily_usage
sum_month_to_date_daily_usage-AreDays_example =
    sum_month_to_date_daily_usage-AreDays whole_floats days month {total = fin 11} refl
