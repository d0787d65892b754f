-- ===== src/Snapshot.antt =====
-- internal/snapshot/snapshot.go. A lock is held for the whole of each method, so a method is a
-- function on the store; a nil map and an empty one read alike and are both `[]`.
pub mod Lifetime
pub mod Scope
pub mod Reads
mod Examples
use qiniu_exporter.Base.{
  Bool, List, Option, String, false, if◌then◌else◌, ltb, none, not, some, true, ℕ, ◌&&◌, ◌||◌,
}
use qiniu_exporter.Base.Int.{leb_ℤ, pos, pos_part, ℤ}
use qiniu_exporter.Base.Keys.{contains, insert, select}
use qiniu_exporter.Base.Time.{is_zero_time, since, zero_time}

pub record Meta : Type 0 where
  pub collected_at : ℕ
  pub data_at : ℕ
  pub stale_after : ℤ

-- The older of the two times, where a zero time does not count.
unfoldable pub reference_time : Meta → ℕ
reference_time meta =
    if not (is_zero_time meta.data_at)
      && (is_zero_time meta.collected_at || ltb meta.data_at meta.collected_at)
    then meta.data_at
    else meta.collected_at

unfoldable pub stale : ℕ → Meta → Bool
unfolding reference_time
stale now meta =
    if leb_ℤ meta.stale_after (pos 0)
    then false
    else ltb (pos_part meta.stale_after) (since now (reference_time meta))

abbrev no_meta : Meta
no_meta = record { collected_at = zero_time; data_at = zero_time; stale_after = pos 0 }

module _ {ℓ} (A : Type ℓ) where
  pub record ResourceValue : Type ℓ where
    pub payload : A
    pub meta : Meta

  pub record ResourceStore : Type ℓ where
    pub values : List (String × ResourceValue)
    pub active : List String
    pub managed : Bool

  -- The atomic pointer of a `Store`.
  abbrev pub Store : Type ℓ
  Store = Option ResourceValue

module _ {ℓ} {A : Type ℓ} where
  unfoldable pub publish : ResourceStore A → String → A → Meta → ResourceStore A
  publish s resource payload meta =
      if s.managed && not (contains resource s.active) then s else record s {
        values = insert resource (record { payload = payload; meta = meta }) s.values;
      }

  unfoldable pub retain : ResourceStore A → List String → ResourceStore A
  retain s resources = record {
    values = select (λ k v. contains k resources) s.values;
    active = resources;
    managed = true;
  }

  unfoldable pub load : ResourceStore A → ℕ → List (String × ResourceValue A)
  unfolding stale
  load s now = select (λ k v. not (stale now v.meta)) s.values

  unfoldable pub publish_whole : Store A → A → Meta → Store A
  publish_whole s payload meta = some (record { payload = payload; meta = meta })

  unfoldable pub clear : Store A → Store A
  clear s = none

  -- The zero value of the data type comes first. A stale value still shows its meta.
  unfoldable pub load_whole : A → Store A → ℕ → A × Meta × Bool
  unfolding stale
  load_whole zero_value none now = (zero_value, no_meta, false)
  load_whole zero_value (some v) now =
      if stale now v.meta then (zero_value, v.meta, false) else (v.payload, v.meta, true)

  unfoldable pub has_value : Store A → Bool
  has_value none = false
  has_value (some v) = true
