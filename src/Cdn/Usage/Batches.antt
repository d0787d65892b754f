-- ===== src/Cdn/Usage/Batches.antt =====
-- `validateUsageBatches` and `validateUsageResponse` of usage.go.
use qiniu_exporter.Base.{
  Bool, List, Option, String, [], false, length, none, not, some, true, ℕ, ◌&&◌, ◌++◌, ◌==◌, ◌∷◌,
}
use qiniu_exporter.Base.Calendar.{Location}
use qiniu_exporter.Base.Floats.{Floats}
use qiniu_exporter.Base.Keys.{contains}
use qiniu_exporter.Base.Result.{Result, ok, or_fail, refuse_if, ◌>>=◌, ◌>>◌}
use qiniu_exporter.Cdn.{
  CdnError, MonitoringResponse, check_business_code, invalid_input, series_misaligned,
}
use qiniu_exporter.Cdn.Names.{validate_usage_domains}
use qiniu_exporter.Cdn.Select.{fit_axis, within_allowlist}
use qiniu_exporter.Cdn.Usage.{
  Granularity, is_valid, parse_usage_points, slice, usage_period_indexes,
}

pub record UsageBatch (F : Type 0) : Type 0 where
  pub domains : List String
  pub response : MonitoringResponse F

pub record UsageBatchRange : Type 0 where
  pub start_index : ℕ
  pub end_index : ℕ

-- The normalised bounds are the same instants as those given.
pub record ValidatedUsageBatches : Type 0 where
  pub starts : List ℕ
  pub ranges : List UsageBatchRange
  pub domains : List String

-- `sameUsagePoints`, against the points of the first batch once there is one.
unfoldable pub same_usage_points : List ℕ → List ℕ → Bool
same_usage_points [] [] = true
same_usage_points (a ∷ as_) (b ∷ bs) = a == b && same_usage_points as_ bs
same_usage_points _ _ = false

abbrev pub agrees : Option (List ℕ) → List ℕ → Bool
agrees none selected = true
agrees (some first) selected = same_usage_points first selected

-- The inner loop over the domains of a batch, against those of the batches before it.
unfoldable pub all_new : List String → List String → Result CdnError (Unit {0})
all_new seen [] = ok tt
all_new seen (d ∷ ds) =
    let rest = all_new (d ∷ seen) ds in refuse_if (contains d seen) invalid_input >> rest

unfoldable pub domains_of : {F : Type 0} → List (UsageBatch F) → List String
domains_of [] = []
domains_of (b ∷ bs) = b.domains ++ domains_of bs

abbrev or_empty : Option (List ℕ) → List ℕ
or_empty none = []
or_empty (some starts) = starts

module _ {F : Type 0} (fl : Floats F) where
  unfoldable pub validate_usage_response :
      MonitoringResponse F → List String → Granularity → Location → Result CdnError (List ℕ)
  validate_usage_response response domains g location = do
    check_business_code response.code
    within_allowlist domains response.by_domain
    starts ← parse_usage_points response.times g location
    fit_axis fl domains response.by_domain (length starts)
    ok starts

  -- The axis of the first batch and the range of each, behind the domains seen.
  unfoldable pub validate_from :
      Granularity
      → ℕ
      → ℕ
      → Location
      → Option (List ℕ)
      → List String
      → List (UsageBatch F)
      → Result CdnError (Option (List ℕ) × List UsageBatchRange)
  unfolding validate_usage_response all_new same_usage_points
  validate_from g period_start period_end location first seen [] = ok (first, [])
  validate_from g period_start period_end location first seen (batch ∷ batches) = do
    validate_usage_domains batch.domains
    all_new seen batch.domains
    starts ← validate_usage_response batch.response batch.domains g location
    (i, j) ← usage_period_indexes starts g period_start period_end location
    refuse_if (not (agrees first (slice i j starts))) series_misaligned
    (axis, ranges) ←
        validate_from g period_start period_end location
          (elim first [ none ↦ some (slice i j starts) | some f ↦ some f ]) (batch.domains ++ seen)
          batches
    ok (axis, (record { start_index = i; end_index = j }) ∷ ranges)

  unfoldable pub validate_usage_batches :
      List (UsageBatch F)
      → Granularity
      → ℕ
      → ℕ
      → Option Location
      → Result CdnError ValidatedUsageBatches
  unfolding validate_from domains_of
  validate_usage_batches batches g period_start period_end location = do
    refuse_if (length batches == 0) invalid_input
    refuse_if (not (is_valid g)) invalid_input
    place ← or_fail location invalid_input
    (axis, ranges) ← validate_from g period_start period_end place none [] batches
    ok (record { starts = or_empty axis; ranges = ranges; domains = domains_of batches })
