-- ===== src/Cdn/Status.antt =====
-- `SelectLatestSafeStatusCodeRates5Min` of transform.go. The map of code series is an association
-- list in the order in which the `range` meets it; a nil map is `none`.
pub mod Keys
use qiniu_exporter.Base.{
  Bool, List, Option, String, [], false, if◌then◌else◌, leb, length, none, not, some, ℕ, ◌&&◌, ◌+◌,
  ◌==◌, ◌||◌, ◌∷◌,
}
use qiniu_exporter.Base.Calendar.{Location}
use qiniu_exporter.Base.Calendar.Layouts.{analytics_layout}
use qiniu_exporter.Base.Floats.{Floats}
use qiniu_exporter.Base.Int.{ℤ}
use qiniu_exporter.Base.Keys.{keys, lookup}
use qiniu_exporter.Base.Result.{Result, err, ok, or_fail, refuse_if, ◌>>=◌, ◌>>◌}
use qiniu_exporter.Base.Sorting.{codes, sort_by, text_le}
use qiniu_exporter.Cdn.{
  CdnError, check_business_code, five_minute_bucket, index_panic, unexpected_response,
}
use qiniu_exporter.Cdn.Names.{validate_output_identity}
use qiniu_exporter.Cdn.Points.{latest_safe_index}
use qiniu_exporter.Cdn.Select.{StatusCodeRateSample, collect}
use qiniu_exporter.Cdn.Series.{validate_series, value_at}
use qiniu_exporter.Cdn.Usage.{bucket_end}

pub record StatusCodeResponse (F : Type 0) : Type 0 where
  pub code : ℤ
  pub points : List String
  pub codes_data : Option (List (String × List F))

-- The two kinds of a valid key: a class such as 4xx and a code such as 404, by their first digit.
pub data KeyKind : Type 0 where
  aggregate exact : ℕ → KeyKind

abbrev is_digit : ℕ → Bool
is_digit c = leb b'0' c && leb c b'9'

-- `validStatusCodeKey`, and of a valid key the test `code[1] == 'x'` that the loop makes on it.
unfoldable pub key_kind : List ℕ → Option KeyKind
key_kind (a ∷ b ∷ c ∷ []) =
    if not (leb b'1' a && leb a b'5')
    then none
    else if b == b'x' && c == b'x'
    then some (aggregate a)
    else if is_digit b && is_digit c
    then some (exact a)
    else none
key_kind s = none

unfoldable pub has_class : List ℕ → ℕ → Bool
has_class [] a = false
has_class (b ∷ bs) a = b == a || has_class bs a

-- The classes seen so far, aggregated and exact.
pub record Classes : Type 0 where
  pub aggregated : List ℕ
  pub exact_classes : List ℕ

abbrev pub note : KeyKind → Classes → Classes
note (aggregate a) cs = record cs { aggregated = a ∷ cs.aggregated }
note (exact a) cs = record cs { exact_classes = a ∷ cs.exact_classes }

-- `for class := range aggregatedClasses`
unfoldable pub mixed : List ℕ → List ℕ → Bool
unfolding has_class
mixed [] exact_classes = false
mixed (a ∷ as_) exact_classes = has_class exact_classes a || mixed as_ exact_classes

module _ {F : Type 0} (fl : Floats F) where
  -- The first loop: the classes, with the keys in the order met.
  unfoldable pub scan_codes :
      ℕ → Classes → List (String × List F) → Result CdnError (Classes × List String)
  unfolding key_kind
  scan_codes want classes [] = ok (classes, [])
  scan_codes want classes ((code, values) ∷ rest) = do
    kind ← or_fail (key_kind (codes code)) unexpected_response
    validate_series fl values want
    (seen, keys) ← scan_codes want (note kind classes) rest
    ok (seen, code ∷ keys)

  -- The body of the last loop.
  unfoldable pub status_sample :
      List (String × List F)
      → String
      → String
      → ℕ
      → ℕ
      → String
      → Result CdnError (List (StatusCodeRateSample F))
  status_sample series domain region index start code = elim (lookup code series) [
    | none ↦ err index_panic
    | some values ↦ (do
      v ← value_at values index
      ok (
          (record {
            domain = domain;
            region = region;
            code = code;
            responses_per_second = fl.over v (fl.of_nat 300);
            bucket_start = start;
            bucket_end = start + five_minute_bucket;
          })
          ∷ []))
  ]

  unfoldable pub status_rates :
      Option (List (String × List F))
      → String
      → String
      → ℕ × List ℕ
      → Result CdnError (List (StatusCodeRateSample F))
  unfolding scan_codes mixed sort_by text_le status_sample collect
  status_rates none domain region (index, starts) = err unexpected_response
  status_rates (some series) domain region (index, starts) = do
    (classes, keys) ←
        scan_codes (length starts) (record { aggregated = []; exact_classes = [] }) series
    refuse_if (mixed classes.aggregated classes.exact_classes) unexpected_response
    start ← value_at starts index
    collect (status_sample series domain region index start) (sort_by text_le keys)

  unfoldable pub select_latest_safe_status_code_rates :
      StatusCodeResponse F
      → String
      → String
      → ℕ
      → Option Location
      → Result CdnError (List (StatusCodeRateSample F))
  unfolding status_rates
  select_latest_safe_status_code_rates response domain region safe_before location = do
    check_business_code response.code
    validate_output_identity domain region
    axis ← latest_safe_index response.points analytics_layout safe_before location
    status_rates response.codes_data domain region axis
