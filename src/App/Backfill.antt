-- ===== src/App/Backfill.antt =====
-- `loadCompletedMonthBandwidth` of cdn.go: the cache of the month's completed days, which is filled
-- in chunks of three days and kept after each. The start of the month is an argument, a function of
-- the window's day. The query's dates are those of the two instants that the fetch is given.
pub mod Caches
pub mod Chunks
pub mod Resumed
use qiniu_exporter.App.Isolation.{fetch_cdn_metering_batches}
use qiniu_exporter.App.Merge.{merge_cdn_bandwidth_usage, zero_cdn_bandwidth_usage}
use qiniu_exporter.Base.{
  Bool, List, Option, String, [], false, if◌then◌else◌, ltb, none, not, some, str_eq, suc, true,
  zero, ℕ, ◌&&◌, ◌*◌, ◌+◌, ◌-◌, ◌/◌, ◌==◌, ◌||◌, ◌∷◌,
}
use qiniu_exporter.Base.Calendar.{Location}
use qiniu_exporter.Base.Floats.{Floats}
use qiniu_exporter.Base.Result.{Result, err, ok, ◌>>=◌}
use qiniu_exporter.Base.Time.{day}
use qiniu_exporter.Cdn.{CdnError, MonitoringResponse}
use qiniu_exporter.Cdn.Usage.{five_minutes}
use qiniu_exporter.Cdn.Usage.Bandwidth.{BandwidthUsageAggregate, aggregate_bandwidth_usage}
use qiniu_exporter.Cdn.Usage.Batches.{UsageBatch}

-- What the function fails with: domains that failed, or an aggregate that is refused.
pub data LoadError : Type 0 where
  partial_failures : List (String × CdnError) → LoadError
  refused : CdnError → LoadError
  nil_cache : LoadError

abbrev pub backfill : ℕ
backfill = 3 * day

pub record CdnBandwidthCache (F : Type 0) : Type 0 where
  pub month_start : ℕ
  pub period_end : ℕ
  pub domains : List String
  pub aggregate : BandwidthUsageAggregate F

-- `slices.Equal`
unfoldable pub same_texts : List String → List String → Bool
same_texts [] [] = true
same_texts (x ∷ xs) (y ∷ ys) = let behind = same_texts xs ys in str_eq x y && behind
same_texts _ _ = false

unfoldable pub usage_batches :
    {F : Type 0} → List (List String × MonitoringResponse F) → List (UsageBatch F)
usage_batches [] = []
usage_batches ((domains, response) ∷ rest) =
    (record { domains = domains; response = response }) ∷ usage_batches rest

abbrev pub as_load : {A : Type 0} → Result CdnError A → Result LoadError A
as_load (ok a) = ok a
as_load (err e) = err (refused e)

-- `chunkEnd`
abbrev pub chunk_end : ℕ → ℕ → ℕ
chunk_end cursor target = if ltb target (cursor + backfill) then target else cursor + backfill

module _ {F : Type 0} (fl : Floats F) where
  -- The cache as it is used: emptied where it is of another month or of other domains, or where its
  -- end lies outside the period.
  unfoldable pub candidate : CdnBandwidthCache F → ℕ → List String → ℕ → CdnBandwidthCache F
  unfolding same_texts
  candidate cache month_start domains target =
      if not (cache.month_start == month_start)
        || not (same_texts cache.domains domains)
        || ltb cache.period_end month_start
        || ltb target cache.period_end
      then record {
        month_start = month_start;
        period_end = month_start;
        domains = domains;
        aggregate = zero_cdn_bandwidth_usage fl domains month_start;
      }
      else cache

  module _ (fetch : ℕ → ℕ → List String → ℕ → List String → Result CdnError (MonitoringResponse F))
      (location : Option Location) where
    -- The metering of a chunk and its aggregate.
    unfoldable pub segment : List String → ℕ → ℕ → Result LoadError (BandwidthUsageAggregate F)
    unfolding usage_batches
    segment domains cursor end_at =
        let metering = fetch_cdn_metering_batches (fetch cursor end_at) domains in
        elim metering.failed [
          | [] ↦ as_load (
              aggregate_bandwidth_usage fl (usage_batches metering.collected) five_minutes cursor
                end_at location)
          | f ∷ fs ↦ err (partial_failures (f ∷ fs))
        ]

    -- The body of the loop: the cache after the next chunk.
    unfoldable pub next_chunk : ℕ → CdnBandwidthCache F → Result LoadError (CdnBandwidthCache F)
    next_chunk target c = do
      usage ← segment c.domains c.period_end (chunk_end c.period_end target)
      joined ← as_load (merge_cdn_bandwidth_usage fl c.aggregate usage)
      ok (record c { aggregate = joined; period_end = chunk_end c.period_end target })

    -- The loop; `none` says that the fuel did not suffice.
    unfoldable pub fill :
        ℕ
        → ℕ
        → CdnBandwidthCache F
        → CdnBandwidthCache F × Option (Result LoadError (BandwidthUsageAggregate F))
    unfolding next_chunk
    fill zero target c = if ltb c.period_end target then (c, none) else (c, some (ok c.aggregate))
    fill (suc fuel) target c =
        if ltb c.period_end target
        then elim (next_chunk target c) [ err e ↦ (c, some (err e)) | ok c' ↦ fill fuel target c' ]
        else (c, some (ok c.aggregate))

    -- The cache after the call, and what it returns.
    unfoldable pub load_completed_month_bandwidth :
        Option (CdnBandwidthCache F)
        → ℕ
        → List String
        → ℕ
        → Option (CdnBandwidthCache F) × Option (Result LoadError (BandwidthUsageAggregate F))
    unfolding fill candidate
    load_completed_month_bandwidth none month_start domains target = (none, some (err nil_cache))
    load_completed_month_bandwidth (some cache) month_start domains target =
        let c = candidate cache month_start domains target in
        let after = fill (suc ((target - c.period_end) / day)) target c in (some after.0, after.1)
