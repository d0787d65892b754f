-- ===== src/Cdn/Select/Rates.antt =====
-- What the request-rate and cache selectors promise, and the ratio of two counters.
use qiniu_exporter.Base.{
  All, List, String, [], arith, false, get_elem?, length, some, suc, zero, ℕ, ◌+◌, ◌∷◌, ◌≡◌,
}
use qiniu_exporter.Base.Calendar.{Location}
use qiniu_exporter.Base.Calendar.Layouts.{analytics_layout}
use qiniu_exporter.Base.Floats.{Floats}
use qiniu_exporter.Base.Result.{>>=-eq-ok, ok}
use qiniu_exporter.Cdn.{check_business_code, five_minute_bucket}
use qiniu_exporter.Cdn.Names.{validate_output_identity}
use qiniu_exporter.Cdn.Points.{latest_safe_index}
use qiniu_exporter.Cdn.Points.Choice.{IsSelection, latest_safe_index-IsSelection}
use qiniu_exporter.Cdn.Select.{
  RequestCountResponse, RequestRateSample, select_latest_safe_request_rate,
}
use qiniu_exporter.Cdn.Series.{bad_value, validate_series, validate_series-IsSeries, value_at}

module _ {F : Type 0} (fl : Floats F) where
  get_elem?-good :
      (values : List F) (i : ℕ) {v : F}
      → All (λ x. bad_value fl x ≡ false) values
      → get_elem? values i ≡ some v
      → bad_value fl v ≡ false
  get_elem?-good [] i h e = cc
  get_elem?-good (x ∷ xs) zero {v = v} (p, h) e = let same : x ≡ v = cc in rw (← same) p
  get_elem?-good (x ∷ xs) (suc i) (p, h) e = get_elem?-good xs i h e

  value_at-ok :
      {A : Type 0} (xs : List A) (i : ℕ) {v : A} → value_at xs i ≡ ok v → get_elem? xs i ≡ some v
  value_at-ok xs i h = ground arith

  -- A request rate that is returned is the count of the newest bucket that ends by `safe_before`
  -- over the 300 seconds of a bucket; the count is the series' own there, neither negative nor a NaN
  -- nor an infinity.
  pub select_latest_safe_request_rate-ok :
      (response : RequestCountResponse F) (domain region : String) (safe_before : ℕ)
      (location : Location) {sample : RequestRateSample F}
      → select_latest_safe_request_rate fl response domain region safe_before (some location)
        ≡ ok sample
      → (index : ℕ) × (starts : List ℕ) × (count : F) × IsSelection analytics_layout location
          safe_before response.points index starts
        × (get_elem? response.req_count index ≡ some count)
        × (bad_value fl count ≡ false)
        × (sample.requests_per_second ≡ fl.over count (fl.of_nat 300))
        × (get_elem? starts index ≡ some sample.bucket_start)
        × (sample.bucket_end ≡ sample.bucket_start + five_minute_bucket)
        × (sample.domain ≡ domain)
        × (sample.region ≡ region)
  unfolding select_latest_safe_request_rate
  select_latest_safe_request_rate-ok response domain region safe_before location h =
      let (u1, e1, h1) = >>=-eq-ok (check_business_code response.code) _ h in
      let (u2, e2, h2) = >>=-eq-ok (validate_output_identity domain region) _ h1 in
      let (p, e3, h3) =
        >>=-eq-ok (latest_safe_index response.points analytics_layout safe_before (some location)) _
          h2 in
      let (u4, e4, h4) = >>=-eq-ok (validate_series fl response.req_count (length p.1)) _ h3 in
      let (count, e5, h5) = >>=-eq-ok (value_at response.req_count p.0) _ h4 in
      let (start, e6, h6) = >>=-eq-ok (value_at p.1 p.0) _ h5 in
      let fine = validate_series-IsSeries fl response.req_count (length p.1) e4 in
      (
        p.0,
        p.1,
        count,
        latest_safe_index-IsSelection response.points analytics_layout safe_before location e3,
        value_at-ok response.req_count p.0 e5,
        get_elem?-good response.req_count p.0 fine.good (value_at-ok response.req_count p.0 e5),
        ground arith,
        ground (arith, value_at-ok p.1 p.0 e6),
        ground arith,
        ground arith,
        ground arith,
      )
