-- ===== src/Kodo.antt =====
-- internal/qiniu/kodo: of types.go the points and samples, and the whole of transform.go.
pub mod Newest
pub mod Month
pub mod Discovery
mod Examples
use qiniu_exporter.Base.{
  Bool, List, Option, String, [], get_elem?, if◌then◌else◌, leb, length, ltb, none, not, some, suc,
  true, ℕ, ◌%◌, ◌&&◌, ◌*◌, ◌+◌, ◌-◌, ◌==◌, ◌||◌, ◌∷◌,
}
use qiniu_exporter.Base.Calendar.{
  Location, clock_hour, clock_minute, clock_nanosecond, clock_second, wall,
}
use qiniu_exporter.Base.Floats.{Floats}
use qiniu_exporter.Base.Result.{Result, ok, or_fail, refuse_if, ◌>>=◌, ◌>>◌}
use qiniu_exporter.Base.Time.{is_zero_time, minute}

-- The sentinel errors; `index_panic` is the run-time panic of an index out of range.
pub data KodoError : Type 0 where
  invalid_input unexpected_response insufficient_points non_continuous index_panic : KodoError
  transport : KodoError

abbrev pub bucket_width : ℕ
bucket_width = 5 * minute

pub data GaugeKind : Type 0 where
  storage_bytes objects requests_per_second egress_bytes_per_second : GaugeKind
  usage_egress_bytes usage_requests : GaugeKind

pub record Point (F : Type 0) : Type 0 where
  pub time : ℕ
  pub value : F

pub record Query : Type 0 where
  pub bucket : String
  pub region : String
  pub begin_at : ℕ
  pub end_at : ℕ
  pub safe_before : ℕ

-- The location is that of `Begin`.
pub record MonthToDateQuery : Type 0 where
  pub bucket : String
  pub region : String
  pub begin_at : ℕ
  pub end_at : ℕ
  pub location : Location

-- The fields that tell samples of one kind apart are texts, empty where they do not apply.
pub record GaugeSample (F : Type 0) : Type 0 where
  pub kind : GaugeKind
  pub bucket : String
  pub region : String
  pub storage_class : String
  pub operation : String
  pub route : String
  pub period : String
  pub value : F
  pub data_at : ℕ

-- `i > 0 && !point.Time.After(points[i-1].Time)` is the failure of this.
abbrev pub comes_after : Option ℕ → ℕ → Bool
comes_after none t = true
comes_after (some s) t = ltb s t

abbrev pub ends_by : ℕ → ℕ → Bool
ends_by safe_before t = leb (t + bucket_width) safe_before

abbrev pub point_at : {A : Type 0} → List A → ℕ → Result KodoError A
point_at xs i = or_fail (get_elem? xs i) index_panic

abbrev pub starts_day : ℕ → Bool
starts_day w =
    clock_hour w == 0 && clock_minute w == 0 && clock_second w == 0 && clock_nanosecond w == 0

unfoldable pub sample_from_point : {F : Type 0} → GaugeKind → Query → Point F → GaugeSample F
sample_from_point kind query point = record {
  kind = kind;
  bucket = query.bucket;
  region = query.region;
  storage_class = "";
  operation = "";
  route = "";
  period = "";
  value = point.value;
  data_at = point.time;
}

module _ {F : Type 0} (fl : Floats F) where
  abbrev pub invalid : F → Bool
  invalid v = fl.is_nan v || fl.is_inf v || fl.below v fl.zero_f

  -- The loop of `latestSafe5MinIndex` from index i on. Five minutes divide the time between the two
  -- epochs, so a remainder of UnixNano is zero where this one is, for the instants whose UnixNano an
  -- int64 holds, those of the years 1678 to 2262; of others UnixNano wraps, and this does not.
  unfoldable pub scan_safe :
      ℕ → ℕ → Option ℕ → Option ℕ → List (Point F) → Result KodoError (Option ℕ)
  scan_safe safe_before i previous latest [] = ok latest
  scan_safe safe_before i previous latest (p ∷ ps) = do
    refuse_if (is_zero_time p.time) unexpected_response
    refuse_if (not (p.time % bucket_width == 0)) unexpected_response
    refuse_if (invalid p.value) unexpected_response
    refuse_if (not (comes_after previous p.time)) non_continuous
    scan_safe safe_before (suc i) (some p.time)
        (if ends_by safe_before p.time then some i else latest) ps

  unfoldable pub latest_safe_5min_index : List (Point F) → ℕ → Result KodoError ℕ
  unfolding scan_safe
  latest_safe_5min_index points safe_before = do
    refuse_if (is_zero_time safe_before) invalid_input
    refuse_if (length points == 0) insufficient_points
    latest ← scan_safe safe_before 0 none none points
    or_fail latest insufficient_points

  unfoldable pub select_latest_safe_5min : List (Point F) → ℕ → Result KodoError (Point F)
  unfolding latest_safe_5min_index
  select_latest_safe_5min points safe_before = do
    i ← latest_safe_5min_index points safe_before
    point_at points i

  unfoldable pub select_latest_safe_rate_5min : List (Point F) → ℕ → Result KodoError (Point F)
  unfolding latest_safe_5min_index
  select_latest_safe_rate_5min points safe_before = do
    i ← latest_safe_5min_index points safe_before
    refuse_if (ltb i 1) insufficient_points
    latest ← point_at points i
    before ← point_at points (i - 1)
    refuse_if (not (latest.time == before.time + bucket_width)) non_continuous
    ok latest

  unfoldable pub rate_sample_from_point : GaugeKind → Query → Point F → GaugeSample F
  unfolding sample_from_point
  rate_sample_from_point kind query point =
      let sample = sample_from_point kind query point in
      record sample { value = fl.over sample.value (fl.of_nat 300) }

  -- The loop of `sumMonthToDateDailyUsage`, behind the time of the point before and the sum so far.
  unfoldable pub sum_days : MonthToDateQuery → Option ℕ → F → List (Point F) → Result KodoError F
  sum_days query previous total [] = ok total
  sum_days query previous total (p ∷ ps) = do
    refuse_if (not (starts_day (wall query.location p.time))) unexpected_response
    refuse_if (ltb p.time query.begin_at || not (ltb p.time query.end_at)) unexpected_response
    refuse_if (invalid p.value) unexpected_response
    refuse_if (not (comes_after previous p.time)) non_continuous
    refuse_if (fl.is_inf (fl.plus total p.value)) unexpected_response
    sum_days query (some p.time) (fl.plus total p.value) ps

  unfoldable pub sum_month_to_date_daily_usage :
      List (Point F) → MonthToDateQuery → Result KodoError F
  unfolding sum_days
  sum_month_to_date_daily_usage points query = sum_days query none fl.zero_f points
