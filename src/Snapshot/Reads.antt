-- ===== src/Snapshot/Reads.antt =====
-- What `Load` shows of a resource store after each of the other calls.
use qiniu_exporter.Base.{
  List, Option-cases, String, arith, eq_iff, if◌then◌else◌, inl, inr, none, not, some, str_eq, ℕ,
  ◌&&◌, ◌≡◌,
}
use qiniu_exporter.Base.Keys.{contains, lookup, lookup-insert, lookup-select, lookup-select-none}
use qiniu_exporter.Snapshot.{Meta, ResourceStore, load, publish, retain, stale}
use qiniu_exporter.Snapshot.Scope.{IsWellFormed, publish-IsWellFormed, retain-IsWellFormed}

module _ {ℓ} {A : Type ℓ} (s : ResourceStore A) (w : IsWellFormed s) (now : ℕ) where
  lookup-load :
      (k : String)
      → lookup k (load s now) ≡ elim (lookup k s.values) [
        | none ↦ none
        | some v ↦ (if stale now v.meta then none else some v)
      ]
  unfolding load
  lookup-load k = elim (Option-cases (lookup k s.values)) [
    | inl e ↦ rw e (lookup-select-none _ k s.values e)
    | inr (v, e) ↦
        ground (arith, lookup-select (λ k v. not (stale now v.meta)) k s.values {v = v} w.map_like)
  ]

module _ {ℓ} {A : Type ℓ} (s : ResourceStore A) (w : IsWellFormed s) (now : ℕ) where
  lookup-values-publish :
      (k j : String) (a : A) (m : Meta)
      → lookup j (publish s k a m).values ≡ (
          if str_eq k j && not (s.managed && not (contains k s.active))
          then some (record { payload = a; meta = m })
          else lookup j s.values)
  unfolding publish
  lookup-values-publish k j a m =
      ground (arith, eq_iff k j, lookup-insert k j (record { payload = a; meta = m }) s.values)

  lookup-values-retain :
      (rs : List String) (k : String)
      → lookup k (retain s rs).values ≡ (if contains k rs then lookup k s.values else none)
  unfolding retain
  lookup-values-retain rs k = elim (Option-cases (lookup k s.values)) [
    | inl e ↦ rw (lookup-select-none _ k s.values e) (ground arith)
    | inr (v, e) ↦
        ground (arith, lookup-select (λ k v. contains k rs) k s.values {v = v} w.map_like)
  ]

  -- A publish is seen by the next `Load`, unless the value is stale already or discovery has dropped
  -- the resource; the other resources read as before.
  pub lookup-load-publish :
      (k j : String) (a : A) (m : Meta)
      → lookup j (load (publish s k a m) now) ≡ (
          if str_eq k j && not (s.managed && not (contains k s.active))
          then (if stale now m then none else some (record { payload = a; meta = m }))
          else lookup j (load s now))
  lookup-load-publish k j a m = ground (
    arith,
    lookup-load (publish s k a m) (publish-IsWellFormed s k a m w) now j,
    lookup-load s w now j,
    lookup-values-publish k j a m,
  )

  -- Discovery keeps what the listed resources show and withdraws the rest.
  pub lookup-load-retain :
      (rs : List String) (k : String)
      → lookup k (load (retain s rs) now) ≡ (if contains k rs then lookup k (load s now) else none)
  lookup-load-retain rs k = ground (
    arith,
    lookup-load (retain s rs) (retain-IsWellFormed s rs w) now k,
    lookup-load s w now k,
    lookup-values-retain rs k,
  )
