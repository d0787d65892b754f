-- ===== src/App.antt =====
-- internal/app: how the collectors split work, isolate bad domains and join periods.
pub mod Split
pub mod Isolation
pub mod Merge
pub mod Backfill
pub mod Usage
mod Examples
use qiniu_exporter.Base.{
  Bool, List, [], drop, if◌then◌else◌, length, not, suc, take, true, zero, ℕ, ◌&&◌, ◌==◌, ◌∷◌,
}
use qiniu_exporter.Base.Result.{Result, err, ok}
use qiniu_exporter.Base.Time.{is_zero_time}
use qiniu_exporter.Cdn.{CdnError, series_misaligned}

-- `batches` of cdn.go: `values[start:min(start + size, len)]` for start = 0, size, ... The fuel bounds
-- the rounds; the number of values is enough for a positive size.
unfoldable pub batches_from : {A : Type 0} → ℕ → ℕ → List A → List (List A)
batches_from zero size values = []
batches_from (suc fuel) size [] = []
batches_from (suc fuel) size (v ∷ vs) =
    take size (v ∷ vs) ∷ batches_from fuel size (drop size (v ∷ vs))

unfoldable pub batches : {A : Type 0} → List A → ℕ → List (List A)
unfolding batches_from
batches values size = batches_from (length values) size values

-- The loop of `matchingCDNBucketEnd` over the bucket ends behind the first.
unfoldable pub all_match : ℕ → List ℕ → Bool
all_match selected [] = true
all_match selected (b ∷ bs) = not (is_zero_time b) && b == selected && all_match selected bs

unfoldable pub matching_bucket_end : List ℕ → Result CdnError ℕ
unfolding all_match
matching_bucket_end [] = err series_misaligned
matching_bucket_end (b ∷ bs) =
    if is_zero_time b
    then err series_misaligned
    else if all_match b bs
    then ok b
    else err series_misaligned
