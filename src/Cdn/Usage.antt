-- ===== src/Cdn/Usage.antt =====
-- internal/qiniu/cdn/usage.go: the period that a usage response must cover.
pub mod Coverage
pub mod Batches
pub mod Traffic
pub mod Bandwidth
pub mod Totals
use qiniu_exporter.Base.{
  Bool, List, Option, String, [], drop, false, if◌then◌else◌, ltb, none, not, some, suc, take, true,
  ℕ, ◌%◌, ◌&&◌, ◌+◌, ◌-◌, ◌==◌, ◌||◌, ◌∷◌,
}
use qiniu_exporter.Base.Calendar.{
  Location, clock_hour, clock_minute, clock_nanosecond, clock_second, wall,
}
use qiniu_exporter.Base.Calendar.Layouts.{monitoring_layout, parse_in_location}
use qiniu_exporter.Base.Result.{Result, err, ok, or_fail, refuse_if, ◌>>=◌, ◌>>◌}
use qiniu_exporter.Base.Time.{day, hour, is_zero_time, zero_time}
use qiniu_exporter.Cdn.{
  CdnError, five_minute_bucket, invalid_input, invalid_timestamp, no_safe_point, non_continuous,
  series_misaligned,
}

-- A Granularity is a string; `other` is any that `Valid` refuses.
pub data Granularity : Type 0 where
  five_minutes hourly daily other : Granularity

unfoldable pub is_valid : Granularity → Bool
is_valid other = false
is_valid g = true

-- On what the location's clock shows.
unfoldable pub is_aligned_to : Granularity → ℕ → Bool
is_aligned_to g w = clock_second w == 0 && clock_nanosecond w == 0 && elim g [
  | five_minutes ↦ clock_minute w % 5 == 0
  | hourly ↦ clock_minute w == 0
  | daily ↦ clock_hour w == 0 && clock_minute w == 0
  | other ↦ false
]

-- `AddDate(0, 0, 1)` is 24 hours in a location of one offset.
unfoldable pub bucket_end : Granularity → ℕ → ℕ
bucket_end five_minutes start = start + five_minute_bucket
bucket_end hourly start = start + hour
bucket_end daily start = start + day
bucket_end other start = zero_time

abbrev pub continues : Granularity → Option ℕ → ℕ → Bool
continues g none t = true
continues g (some s) t = t == bucket_end g s

-- The loop of `parseUsagePoints`.
unfoldable pub parse_points :
    (String → Option ℕ) → Location → Granularity → Option ℕ → List String → Result CdnError (List ℕ)
parse_points parse location g previous [] = ok []
parse_points parse location g previous (raw ∷ rest) = do
  t ← or_fail (parse raw) invalid_timestamp
  refuse_if (not (is_aligned_to g (wall location t))) invalid_timestamp
  refuse_if (not (continues g previous t)) non_continuous
  starts ← parse_points parse location g (some t) rest
  ok (t ∷ starts)

unfoldable pub parse_usage_points : List String → Granularity → Location → Result CdnError (List ℕ)
unfolding parse_points
parse_usage_points [] g location = err no_safe_point
parse_usage_points (p ∷ ps) g location =
    parse_points (parse_in_location monitoring_layout location) location g none (p ∷ ps)

-- The first loop of `usagePeriodIndexes`: the index of the period's start, counted from i.
unfoldable pub find_start : ℕ → ℕ → List ℕ → Option ℕ
find_start start i [] = none
find_start start i (t ∷ ts) =
    let later = find_start start (suc i) ts in if t == start then some i else later

-- The second loop, over the starts that are left: where the cursor stops, and at which index.
unfoldable pub cover : Granularity → ℕ → ℕ → ℕ → List ℕ → Result CdnError (ℕ × ℕ)
cover g end cursor end_index [] =
    if ltb cursor end then err series_misaligned else ok (cursor, end_index)
cover g end cursor end_index (t ∷ ts) =
    let further = cover g end (bucket_end g cursor) (suc end_index) ts in
    if ltb cursor end
    then (if t == cursor then further else err series_misaligned)
    else ok (cursor, end_index)

unfoldable pub usage_period_indexes :
    List ℕ → Granularity → ℕ → ℕ → Location → Result CdnError (ℕ × ℕ)
unfolding find_start cover is_aligned_to
usage_period_indexes starts g period_start period_end location = do
  refuse_if (is_zero_time period_start || is_zero_time period_end) invalid_input
  refuse_if (not (ltb period_start period_end)) invalid_input
  refuse_if
      (not (is_aligned_to g (wall location period_start))
        || not (is_aligned_to g (wall location period_end)))
      invalid_input
  start_index ← or_fail (find_start period_start 0 starts) series_misaligned
  (cursor, end_index) ← cover g period_end period_start start_index (drop start_index starts)
  refuse_if (not (cursor == period_end)) invalid_input
  ok (start_index, end_index)

-- `starts[startIndex:endIndex]`
abbrev pub slice : {A : Type 0} → ℕ → ℕ → List A → List A
slice i j xs = take (j - i) (drop i xs)
