-- ===== src/Cdn.antt =====
-- internal/qiniu/cdn: the errors, the response shapes and the small checks that the other files of
-- the package share. Texts are native strings: a Go string that is valid UTF-8.
pub mod Discovery
pub mod Names
pub mod Queries
pub mod Points
pub mod Series
pub mod Select
pub mod Status
pub mod Usage
mod Examples
use qiniu_exporter.Base.{Bool, List, String, not, ℕ, ◌*◌, ◌+◌, ◌==◌}
use qiniu_exporter.Base.Int.{neg_part, pos, pos_part, ℤ}
use qiniu_exporter.Base.Result.{Result, refuse_if}
use qiniu_exporter.Base.Time.{minute}

-- The sentinel errors; `api_error` carries the business code of an APIError, `index_panic` is the
-- run-time panic of an index out of range, `transport` any other error of a request.
pub data CdnError : Type 0 where
  invalid_input unexpected_response series_misaligned invalid_timestamp invalid_value : CdnError
  no_safe_point non_continuous index_panic transport isolation_budget scope_changed : CdnError
  api_error : ℤ → CdnError

abbrev pub five_minute_bucket : ℕ
five_minute_bucket = 5 * minute

abbrev pub max_usage_domains : ℕ
max_usage_domains = 50

abbrev pub max_analytics_domains : ℕ
max_analytics_domains = 100

pub record MonitoringRegionSeries (F : Type 0) : Type 0 where
  pub china : List F
  pub oversea : List F

pub record MonitoringResponse (F : Type 0) : Type 0 where
  pub code : ℤ
  pub times : List String
  pub by_domain : List (String × MonitoringRegionSeries F)

abbrev pub same_ℤ : ℤ → ℤ → Bool
same_ℤ a b = pos_part a + neg_part b == pos_part b + neg_part a

unfoldable pub check_business_code : ℤ → Result CdnError (Unit {0})
check_business_code code = refuse_if (not (same_ℤ code (pos 200))) (api_error code)
