-- ===== src/Snapshot/Lifetime.antt =====
-- When a snapshot stops being served: `stale`, and `Load` of a whole-account store.
use qiniu_exporter.Base.{arith, false, if◌then◌else◌, refl, true, ℕ, ◌+◌, ◌<◌, ◌↔◌, ◌≡◌, ◌≢◌, ◌≤◌}
use qiniu_exporter.Base.Int.{pos}
use qiniu_exporter.Base.Time.{max_duration, zero_time}
use qiniu_exporter.Snapshot.{Meta, Store, clear, has_value, load_whole, publish_whole, stale}

-- A snapshot with a lifetime is stale from some instant on: once stale, it stays stale.
pub stale_mono :
    (now later : ℕ) (meta : Meta) → now ≤ later → stale now meta ≡ true → stale later meta ≡ true
unfolding stale
stale_mono now later meta h e = ground arith

-- A snapshot whose lifetime is positive and below the longest duration is stale exactly when more
-- than the lifetime has passed since its collection, or since its data where that has a time and
-- is older (or the collection has none). Collecting again a bucket whose data time stands still
-- does not make it live longer.
pub stale_iff_past :
    (now n : ℕ) (meta : Meta)
    → meta.stale_after ≡ pos n
    → 0 < n
    → n < max_duration
    → meta.data_at ≢ zero_time
    → meta.data_at ≤ meta.collected_at
    → (stale now meta ≡ true) ↔ (meta.data_at + n < now)
unfolding stale
stale_iff_past now n meta e h k z o = (λ p. ground arith, λ p. ground arith)

module _ {ℓ} {A : Type ℓ} (zero_value : A) (s : Store A) where
  -- A published whole-account snapshot is served as it was published until it is stale, then its
  -- data are withheld and its meta still shown; after `Clear` there is nothing, whatever the time.
  pub load_whole-publish_whole :
      (payload : A) (meta : Meta) (now : ℕ)
      → (load_whole zero_value (publish_whole s payload meta) now
          ≡ (if stale now meta then (zero_value, meta, false) else (payload, meta, true)))
        × ((load_whole zero_value (clear (publish_whole s payload meta)) now).2 ≡ false)
        × (has_value (clear (publish_whole s payload meta)) ≡ false)
  unfolding load_whole publish_whole clear has_value
  load_whole-publish_whole payload meta now = (refl, refl, refl)
