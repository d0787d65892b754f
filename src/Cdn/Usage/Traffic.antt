-- ===== src/Cdn/Usage/Traffic.antt =====
-- `AggregateTrafficUsage` of usage.go.
use qiniu_exporter.Base.{
  Bool, List, Option, String, [], length, none, some, suc, zero, ℕ, ◌++◌, ◌-◌, ◌∷◌,
}
use qiniu_exporter.Base.Calendar.{Location}
use qiniu_exporter.Base.Floats.{Floats}
use qiniu_exporter.Base.Keys.{lookup}
use qiniu_exporter.Base.Result.{Result, err, ok, ◌>>=◌}
use qiniu_exporter.Cdn.{CdnError, MonitoringRegionSeries, MonitoringResponse, index_panic}
use qiniu_exporter.Cdn.Series.{add_usage_value, optional_series_value}
use qiniu_exporter.Cdn.Usage.{Granularity}
use qiniu_exporter.Cdn.Usage.Batches.{UsageBatch, UsageBatchRange, validate_usage_batches}

module _ (F : Type 0) where
  pub record DomainTrafficUsage : Type 0 where
    pub domain : String
    pub china_bytes : F
    pub oversea_bytes : F
    pub bytes : F
    pub active : Bool

  pub record TrafficUsageAggregate : Type 0 where
    pub period_start : ℕ
    pub period_end : ℕ
    pub bucket_count : ℕ
    pub domains : List DomainTrafficUsage
    pub account_bytes : F

module _ {F : Type 0} (fl : Floats F) where
  -- The loop over the points of a domain: n points from `point` on, behind the sums so far.
  unfoldable pub add_points : MonitoringRegionSeries F → ℕ → ℕ → F → F → Result CdnError (F × F)
  add_points series point zero china oversea = ok (china, oversea)
  add_points series point (suc n) china oversea = do
    c ← optional_series_value fl series.china point
    china' ← add_usage_value fl china c
    o ← optional_series_value fl series.oversea point
    oversea' ← add_usage_value fl oversea o
    add_points series (suc point) n china' oversea'

  unfoldable pub sum_domain :
      Option (MonitoringRegionSeries F) → UsageBatchRange → Result CdnError (F × F)
  unfolding add_points
  sum_domain none range = ok (fl.zero_f, fl.zero_f)
  sum_domain (some series) range =
      add_points series range.start_index (range.end_index - range.start_index) fl.zero_f fl.zero_f

  -- The loop over the domains of a batch, behind the account's total so far.
  unfoldable pub traffic_of_domains :
      MonitoringResponse F
      → UsageBatchRange
      → F
      → List String
      → Result CdnError (List (DomainTrafficUsage F) × F)
  unfolding sum_domain
  traffic_of_domains response range account [] = ok ([], account)
  traffic_of_domains response range account (domain ∷ domains) = do
    (china, oversea) ← sum_domain (lookup domain response.by_domain) range
    bytes ← add_usage_value fl china oversea
    account' ← add_usage_value fl account bytes
    (rest, total) ← traffic_of_domains response range account' domains
    ok (
      (record {
        domain = domain;
        china_bytes = china;
        oversea_bytes = oversea;
        bytes = bytes;
        active = fl.below fl.zero_f bytes;
      })
          ∷ rest,
      total,
    )

  -- The loop over the batches and their ranges; there is a range for each batch.
  unfoldable pub traffic_of_batches :
      F
      → List (UsageBatch F)
      → List UsageBatchRange
      → Result CdnError (List (DomainTrafficUsage F) × F)
  unfolding traffic_of_domains
  traffic_of_batches account [] ranges = ok ([], account)
  traffic_of_batches account (batch ∷ batches) [] = err index_panic
  traffic_of_batches account (batch ∷ batches) (range ∷ ranges) = do
    (rows, account') ← traffic_of_domains batch.response range account batch.domains
    (rest, total) ← traffic_of_batches account' batches ranges
    ok (rows ++ rest, total)

  unfoldable pub aggregate_traffic_usage :
      List (UsageBatch F)
      → Granularity
      → ℕ
      → ℕ
      → Option Location
      → Result CdnError (TrafficUsageAggregate F)
  unfolding traffic_of_batches
  aggregate_traffic_usage batches g period_start period_end location = do
    validated ← validate_usage_batches fl batches g period_start period_end location
    (rows, total) ← traffic_of_batches fl.zero_f batches validated.ranges
    ok (record {
      period_start = period_start;
      period_end = period_end;
      bucket_count = length validated.starts;
      domains = rows;
      account_bytes = total;
    })
