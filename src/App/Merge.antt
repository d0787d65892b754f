-- ===== src/App/Merge.antt =====
-- The joining of two periods of usage in cdn.go: of the completed days of the month and today.
pub mod Rows
pub mod Joined
use qiniu_exporter.Base.{
  List, String, [], false, if◌then◌else◌, length, not, str_eq, ℕ, ◌+◌, ◌==◌, ◌||◌, ◌∷◌,
}
use qiniu_exporter.Base.Floats.{Floats}
use qiniu_exporter.Base.Result.{Result, err, ok, refuse_if, ◌>>=◌, ◌>>◌}
use qiniu_exporter.Base.Time.{zero_time}
use qiniu_exporter.Cdn.{CdnError, index_panic, invalid_value, series_misaligned}
use qiniu_exporter.Cdn.Usage.Bandwidth.{BandwidthUsageAggregate, DomainBandwidthUsage, empty_rows}
use qiniu_exporter.Cdn.Usage.Traffic.{DomainTrafficUsage, TrafficUsageAggregate}

module _ {F : Type 0} (fl : Floats F) where
  abbrev zero_traffic_rows : List String → List (DomainTrafficUsage F)
  zero_traffic_rows [] = []
  zero_traffic_rows (domain ∷ domains) =
      (record {
        domain = domain;
        china_bytes = fl.zero_f;
        oversea_bytes = fl.zero_f;
        bytes = fl.zero_f;
        active = false;
      })
      ∷ zero_traffic_rows domains

  unfoldable pub zero_cdn_traffic_usage : List String → ℕ → TrafficUsageAggregate F
  zero_cdn_traffic_usage domains at_ = record {
    period_start = at_;
    period_end = at_;
    bucket_count = 0;
    domains = zero_traffic_rows domains;
    account_bytes = fl.zero_f;
  }

  -- The time of a peak that is left out is Go's zero time.
  unfoldable pub zero_cdn_bandwidth_usage : List String → ℕ → BandwidthUsageAggregate F
  zero_cdn_bandwidth_usage domains at_ = record {
    period_start = at_;
    period_end = at_;
    bucket_count = 0;
    domains = empty_rows fl zero_time domains;
    account_peak_bits_per_second = fl.zero_f;
    account_peak_at = zero_time;
  }

  unfoldable pub add_finite_cdn_usage : F → F → Result CdnError F
  add_finite_cdn_usage left right =
      let value = fl.plus left right in
      if fl.is_nan value || fl.is_inf value then err invalid_value else ok value

  -- The loop over the rows of today, behind the account's bytes so far; the lists are equally long.
  unfoldable pub merge_traffic_rows :
      F
      → List (DomainTrafficUsage F)
      → List (DomainTrafficUsage F)
      → Result CdnError (List (DomainTrafficUsage F) × F)
  merge_traffic_rows account prior [] = ok ([], account)
  merge_traffic_rows account [] (t ∷ today) = err index_panic
  merge_traffic_rows account (p ∷ prior) (t ∷ today) = do
    refuse_if (not (str_eq p.domain t.domain)) series_misaligned
    china ← add_finite_cdn_usage p.china_bytes t.china_bytes
    oversea ← add_finite_cdn_usage p.oversea_bytes t.oversea_bytes
    bytes ← add_finite_cdn_usage china oversea
    account' ← add_finite_cdn_usage account bytes
    (rows, total) ← merge_traffic_rows account' prior today
    ok (
      (record {
        domain = t.domain;
        china_bytes = china;
        oversea_bytes = oversea;
        bytes = bytes;
        active = fl.below fl.zero_f bytes;
      })
          ∷ rows,
      total,
    )

  unfoldable pub merge_cdn_traffic_usage :
      TrafficUsageAggregate F → TrafficUsageAggregate F → Result CdnError (TrafficUsageAggregate F)
  unfolding merge_traffic_rows add_finite_cdn_usage
  merge_cdn_traffic_usage prior today = do
    refuse_if (not (length prior.domains == length today.domains)) series_misaligned
    (rows, total) ← merge_traffic_rows fl.zero_f prior.domains today.domains
    ok (record {
      period_start = prior.period_start;
      period_end = today.period_end;
      bucket_count = prior.bucket_count + today.bucket_count;
      domains = rows;
      account_bytes = total;
    })

  unfoldable pub merge_bandwidth_row :
      DomainBandwidthUsage F → DomainBandwidthUsage F → DomainBandwidthUsage F
  merge_bandwidth_row p c =
      let selected = if fl.below p.peak_bits_per_second c.peak_bits_per_second then c else p in
      record selected { active = p.active || c.active }

  unfoldable pub merge_bandwidth_rows :
      List (DomainBandwidthUsage F)
      → List (DomainBandwidthUsage F)
      → Result CdnError (List (DomainBandwidthUsage F))
  unfolding merge_bandwidth_row
  merge_bandwidth_rows [] current = ok []
  merge_bandwidth_rows (p ∷ prior) [] = err index_panic
  merge_bandwidth_rows (p ∷ prior) (c ∷ current) = do
    refuse_if (not (str_eq p.domain c.domain)) series_misaligned
    rows ← merge_bandwidth_rows prior current
    ok (merge_bandwidth_row p c ∷ rows)

  unfoldable pub merge_both :
      BandwidthUsageAggregate F
      → BandwidthUsageAggregate F
      → Result CdnError (BandwidthUsageAggregate F)
  unfolding merge_bandwidth_rows
  merge_both prior current =
      let keeps =
        fl.at_most current.account_peak_bits_per_second prior.account_peak_bits_per_second in
      (do
        refuse_if (not (length prior.domains == length current.domains)) series_misaligned
        rows ← merge_bandwidth_rows prior.domains current.domains
        ok (record {
          period_start = prior.period_start;
          period_end = current.period_end;
          bucket_count = prior.bucket_count + current.bucket_count;
          domains = rows;
          account_peak_bits_per_second =
              if keeps
              then prior.account_peak_bits_per_second
              else current.account_peak_bits_per_second;
          account_peak_at = if keeps then prior.account_peak_at else current.account_peak_at;
        }))

  unfoldable pub merge_cdn_bandwidth_usage :
      BandwidthUsageAggregate F
      → BandwidthUsageAggregate F
      → Result CdnError (BandwidthUsageAggregate F)
  unfolding merge_both
  merge_cdn_bandwidth_usage prior current =
      if prior.bucket_count == 0
      then ok (record current { period_start = prior.period_start })
      else if current.bucket_count == 0
      then ok prior
      else merge_both prior current
