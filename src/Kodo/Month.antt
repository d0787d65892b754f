-- ===== src/Kodo/Month.antt =====
-- What the sum of the days of a month counts.
use qiniu_exporter.Base.{
  List, Option, [], arith, false, ltb, none, not, some, sym, true, ℕ, ◌<◌, ◌||◌, ◌∷◌, ◌≡◌, ◌≤◌,
}
use qiniu_exporter.Base.Calendar.{wall}
use qiniu_exporter.Base.Floats.{Floats}
use qiniu_exporter.Base.Result.{>>=-eq-ok, ok, ok-injective, refuse_if}
use qiniu_exporter.Kodo.{
  MonthToDateQuery, Point, comes_after, invalid, non_continuous, starts_day, sum_days,
  sum_month_to_date_daily_usage, unexpected_response,
}

module _ {F : Type 0} (fl : Floats F) where
  abbrev pub total_of : F → List (Point F) → F
  total_of total [] = total
  total_of total (p ∷ ps) = total_of (fl.plus total p.value) ps

  -- Each point starts a day of the query's window, and comes after the point before it.
  abbrev pub AreDays : MonthToDateQuery → Option ℕ → List (Point F) → Type 0
  AreDays query previous [] = Unit
  AreDays query previous (p ∷ ps) =
      (starts_day (wall query.location p.time) ≡ true)
      × (query.begin_at ≤ p.time)
      × (p.time < query.end_at)
      × (comes_after previous p.time ≡ true)
      × (invalid fl p.value ≡ false)
      × AreDays query (some p.time) ps

  sum_days-AreDays :
      (query : MonthToDateQuery) (previous : Option ℕ) (start : F) (ps : List (Point F)) {total : F}
      → sum_days fl query previous start ps ≡ ok total
      → AreDays query previous ps × (total ≡ total_of start ps)
  unfolding sum_days
  sum_days-AreDays query previous start [] h = (tt, sym (ok-injective h))
  sum_days-AreDays query previous start (p ∷ ps) h =
      let (u1, e1, h1) =
        >>=-eq-ok (refuse_if (not (starts_day (wall query.location p.time))) unexpected_response) _
          h in
      let (u2, e2, h2) =
        >>=-eq-ok
          (refuse_if (ltb p.time query.begin_at || not (ltb p.time query.end_at))
            unexpected_response)
          _ h1 in
      let (u3, e3, h3) = >>=-eq-ok (refuse_if (invalid fl p.value) unexpected_response) _ h2 in
      let (u4, e4, h4) =
        >>=-eq-ok (refuse_if (not (comes_after previous p.time)) non_continuous) _ h3 in
      let (u5, e5, h5) =
        >>=-eq-ok (refuse_if (fl.is_inf (fl.plus start p.value)) unexpected_response) _ h4 in
      let (days, sum) = sum_days-AreDays query (some p.time) (fl.plus start p.value) ps h5 in
      ((ground arith, ground arith, ground arith, ground arith, ground arith, days), sum)

  -- A usage of the month that is returned is the sum of all the points, added up in their order from
  -- zero, where every point starts a day of the queried window, the days increase, so that none is
  -- counted twice, and every value is neither negative nor a NaN nor an infinity.
  pub sum_month_to_date_daily_usage-AreDays :
      (points : List (Point F)) (query : MonthToDateQuery) {total : F}
      → sum_month_to_date_daily_usage fl points query ≡ ok total
      → AreDays query none points × (total ≡ total_of fl.zero_f points)
  unfolding sum_month_to_date_daily_usage
  sum_month_to_date_daily_usage-AreDays points query h =
      sum_days-AreDays query none fl.zero_f points h
