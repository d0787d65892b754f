-- ===== src/Cdn/Usage/Bandwidth.antt =====
-- `AggregateBandwidthUsage` of usage.go. `domainIndexes` maps a domain to its place among the rows,
-- which the checks make unique: an update goes to the row of that name.
use qiniu_exporter.Base.{
  Bool, List, Option, String, [], false, if◌then◌else◌, length, none, not, some, str_eq, suc, true,
  ℕ, ◌+◌, ◌==◌, ◌||◌, ◌∷◌,
}
use qiniu_exporter.Base.Calendar.{Location}
use qiniu_exporter.Base.Floats.{Floats}
use qiniu_exporter.Base.Keys.{lookup}
use qiniu_exporter.Base.Result.{Result, err, ok, refuse_if, ◌>>=◌, ◌>>◌}
use qiniu_exporter.Cdn.{
  CdnError, MonitoringRegionSeries, MonitoringResponse, index_panic, invalid_input,
}
use qiniu_exporter.Cdn.Series.{add_usage_value, optional_series_value, value_at}
use qiniu_exporter.Cdn.Usage.{Granularity, five_minutes}
use qiniu_exporter.Cdn.Usage.Batches.{UsageBatch, UsageBatchRange, validate_usage_batches}

module _ (F : Type 0) where
  pub record DomainBandwidthUsage : Type 0 where
    pub domain : String
    pub peak_bits_per_second : F
    pub peak_at : ℕ
    pub active : Bool

  pub record BandwidthUsageAggregate : Type 0 where
    pub period_start : ℕ
    pub period_end : ℕ
    pub bucket_count : ℕ
    pub domains : List DomainBandwidthUsage
    pub account_peak_bits_per_second : F
    pub account_peak_at : ℕ

module _ {F : Type 0} (fl : Floats F) where
  -- The two tests on the row of a domain at a point; `first` says that the point is the period's
  -- first.
  unfoldable pub raise_row : Bool → ℕ → F → DomainBandwidthUsage F → DomainBandwidthUsage F
  raise_row first at_ value row =
      let raised =
        if first || fl.below row.peak_bits_per_second value
        then record row { peak_bits_per_second = value; peak_at = at_ }
        else row in
      if fl.below fl.zero_f value then record raised { active = true } else raised

  unfoldable pub raise_peak :
      Bool → ℕ → F → String → List (DomainBandwidthUsage F) → List (DomainBandwidthUsage F)
  unfolding raise_row
  raise_peak first at_ value domain [] = []
  raise_peak first at_ value domain (row ∷ rows) =
      let others = row ∷ raise_peak first at_ value domain rows in
      if str_eq row.domain domain then raise_row first at_ value row ∷ rows else others

  unfoldable pub bandwidth_at_point : Option (MonitoringRegionSeries F) → ℕ → Result CdnError F
  bandwidth_at_point none point = ok fl.zero_f
  bandwidth_at_point (some series) point = do
    china ← optional_series_value fl series.china point
    oversea ← optional_series_value fl series.oversea point
    add_usage_value fl china oversea

  -- The domains of one batch at one point: the rows and the account's sum so far.
  unfoldable pub point_of_domains :
      Bool
      → ℕ
      → MonitoringResponse F
      → ℕ
      → F
      → List (DomainBandwidthUsage F)
      → List String
      → Result CdnError (List (DomainBandwidthUsage F) × F)
  unfolding bandwidth_at_point raise_peak
  point_of_domains first at_ response point account rows [] = ok (rows, account)
  point_of_domains first at_ response point account rows (domain ∷ domains) = do
    value ← bandwidth_at_point (lookup domain response.by_domain) point
    account' ← add_usage_value fl account value
    point_of_domains first at_ response point account' (raise_peak first at_ value domain rows)
        domains

  unfoldable pub point_of_batches :
      Bool
      → ℕ
      → ℕ
      → F
      → List (DomainBandwidthUsage F)
      → List (UsageBatch F)
      → List UsageBatchRange
      → Result CdnError (List (DomainBandwidthUsage F) × F)
  unfolding point_of_domains
  point_of_batches first at_ point account rows [] ranges = ok (rows, account)
  point_of_batches first at_ point account rows (batch ∷ batches) [] = err index_panic
  point_of_batches first at_ point account rows (batch ∷ batches) (range ∷ ranges) = do
    (rows', account') ←
        point_of_domains first at_ batch.response (range.start_index + point) account rows
          batch.domains
    point_of_batches first at_ point account' rows' batches ranges

  -- The loop over the points, behind the rows, the account's peak and when it was.
  unfoldable pub peaks :
      List (UsageBatch F)
      → List UsageBatchRange
      → ℕ
      → List (DomainBandwidthUsage F)
      → F
      → ℕ
      → List ℕ
      → Result CdnError (List (DomainBandwidthUsage F) × F × ℕ)
  unfolding point_of_batches
  peaks batches ranges point rows peak peak_at [] = ok (rows, peak, peak_at)
  peaks batches ranges point rows peak peak_at (start ∷ starts) = do
    (rows', account) ← point_of_batches (point == 0) start point fl.zero_f rows batches ranges
    peaks batches ranges (suc point) rows'
        (if point == 0 || fl.below peak account then account else peak)
        (if point == 0 || fl.below peak account then start else peak_at) starts

  unfoldable pub empty_rows : ℕ → List String → List (DomainBandwidthUsage F)
  empty_rows first_point [] = []
  empty_rows first_point (domain ∷ domains) =
      (record {
        domain = domain;
        peak_bits_per_second = fl.zero_f;
        peak_at = first_point;
        active = false;
      })
      ∷ empty_rows first_point domains

  abbrev pub is_five_minutes : Granularity → Bool
  is_five_minutes five_minutes = true
  is_five_minutes _ = false

  unfoldable pub aggregate_bandwidth_usage :
      List (UsageBatch F)
      → Granularity
      → ℕ
      → ℕ
      → Option Location
      → Result CdnError (BandwidthUsageAggregate F)
  unfolding peaks empty_rows
  aggregate_bandwidth_usage batches g period_start period_end location = do
    refuse_if (not (is_five_minutes g)) invalid_input
    validated ← validate_usage_batches fl batches g period_start period_end location
    first_point ← value_at validated.starts 0
    (rows, peak, peak_at) ←
        peaks batches validated.ranges 0 (empty_rows first_point validated.domains) fl.zero_f
          first_point validated.starts
    ok (record {
      period_start = period_start;
      period_end = period_end;
      bucket_count = length validated.starts;
      domains = rows;
      account_peak_bits_per_second = peak;
      account_peak_at = peak_at;
    })
