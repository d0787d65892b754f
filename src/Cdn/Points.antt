-- ===== src/Cdn/Points.antt =====
-- `latestSafeIndex` of transform.go: the time axis of a response.
pub mod Choice
use qiniu_exporter.Base.{
  Bool, List, Option, String, [], if◌then◌else◌, leb, none, not, some, suc, true, ℕ, ◌%◌, ◌&&◌, ◌+◌,
  ◌==◌, ◌∷◌,
}
use qiniu_exporter.Base.Calendar.{Location, clock_minute, clock_nanosecond, clock_second, wall}
use qiniu_exporter.Base.Calendar.Layouts.{Layout, parse_in_location}
use qiniu_exporter.Base.Result.{Result, err, ok, refuse_if, ◌>>=◌, ◌>>◌}
use qiniu_exporter.Base.Time.{is_zero_time}
use qiniu_exporter.Cdn.{
  CdnError, five_minute_bucket, invalid_input, invalid_timestamp, no_safe_point, non_continuous,
}

-- Minute and second hand of the location's clock on a five-minute mark.
abbrev pub is_aligned : Location → ℕ → Bool
is_aligned location t =
    clock_second (wall location t) == 0
    && clock_nanosecond (wall location t) == 0
    && clock_minute (wall location t) % 5 == 0

-- `i > 0 && parsed.Sub(starts[i-1]) != FiveMinuteBucket` is the failure of this.
abbrev pub follows : Option ℕ → ℕ → Bool
follows none t = true
follows (some s) t = t == s + five_minute_bucket

abbrev pub is_safe : ℕ → ℕ → Bool
is_safe safe_before t = leb (t + five_minute_bucket) safe_before

-- The loop from index i on, behind the start of the point before and with the latest safe index so
-- far; its result is the latest safe index of all and the starts from i on.
unfoldable pub scan_points :
    (String → Option ℕ)
    → Location
    → ℕ
    → ℕ
    → Option ℕ
    → Option ℕ
    → List String
    → Result CdnError (Option ℕ × List ℕ)
scan_points parse location safe_before i previous latest [] = ok (latest, [])
scan_points parse location safe_before i previous latest (raw ∷ rest) = elim (parse raw) [
  | none ↦ err invalid_timestamp
  | some t ↦ (do
    refuse_if (not (is_aligned location t)) invalid_timestamp
    refuse_if (not (follows previous t)) non_continuous
    (last, starts) ←
        scan_points parse location safe_before (suc i) (some t)
          (if is_safe safe_before t then some i else latest) rest
    ok (last, t ∷ starts))
]

abbrev pub found : Option ℕ × List ℕ → Result CdnError (ℕ × List ℕ)
found (none, starts) = err no_safe_point
found (some i, starts) = ok (i, starts)

unfoldable pub latest_safe_index :
    List String → Layout → ℕ → Option Location → Result CdnError (ℕ × List ℕ)
unfolding scan_points
latest_safe_index raw layout safe_before none = err invalid_input
latest_safe_index [] layout safe_before (some location) =
    if is_zero_time safe_before then err invalid_input else err no_safe_point
latest_safe_index (p ∷ ps) layout safe_before (some location) =
    if is_zero_time safe_before
    then err invalid_input
    else scan_points (parse_in_location layout location) location safe_before 0 none none (p ∷ ps)
      >>= found
