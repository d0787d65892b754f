-- ===== src/Snapshot/Scope.antt =====
-- What a resource store holds: `Publish`, `Retain` and `Load` against one another.
use qiniu_exporter.Base.{
  All, Bool, Bool-cases, List, Option-cases, String, [], ap, arith, eq_iff, false, inl, inr, none,
  not, refl, true, ℕ, ◌&&◌, ◌∙◌, ◌∷◌, ◌≡◌,
}
use qiniu_exporter.Base.Keys.{
  IsMap, contains, insert-IsMap, lookup, lookup-insert, lookup-select, lookup-select-none,
  select-IsMap,
}
use qiniu_exporter.Snapshot.{Meta, ResourceStore, load, publish, retain}

pub data Call {ℓ} (A : Type ℓ) : Type ℓ where
  publishes : String → A → Meta → Call A
  retains : List String → Call A

module _ {ℓ} {A : Type ℓ} where
  -- No resource twice, and under discovery none outside the active set.
  pub record IsWellFormed (s : ResourceStore A) : Type ℓ where
    pub map_like : IsMap s.values
    pub scoped :
        s.managed ≡ true → (k : String) → contains k s.active ≡ false → lookup k s.values ≡ none

  pub empty : ResourceStore A
  empty = record { values = []; active = []; managed = false }

  pub empty-IsWellFormed : IsWellFormed empty
  unfolding empty lookup
  empty-IsWellFormed = record { map_like = tt; scoped = λ _ _ _. refl }

  pub publish-IsWellFormed :
      (s : ResourceStore A) (k : String) (a : A) (m : Meta)
      → IsWellFormed s
      → IsWellFormed (publish s k a m)
  unfolding publish
  publish-IsWellFormed s k a m w = elim (Bool-cases (s.managed && not (contains k s.active))) [
    | inl shut ↦ rw shut w
    | inr open_ ↦ rw open_ (record {
      map_like = insert-IsMap k _ s.values w.map_like;
      scoped = λ g j out. ground (
        arith,
        eq_iff k j,
        lookup-insert k j (record { payload = a; meta = m }) s.values,
        w.scoped g j out,
      );
    })
  ]

  pub retain-IsWellFormed :
      (s : ResourceStore A) (rs : List String) → IsWellFormed s → IsWellFormed (retain s rs)
  unfolding retain
  retain-IsWellFormed s rs w = record {
    map_like = select-IsMap _ s.values w.map_like;
    scoped = λ _ j out. elim (Option-cases (lookup j s.values)) [
      | inl e ↦ lookup-select-none _ j s.values e
      | inr (v, e) ↦ rw (lookup-select _ j s.values w.map_like e, out)
    ];
  }

  pub step : ResourceStore A → Call A → ResourceStore A
  step s (publishes k a m) = publish s k a m
  step s (retains rs) = retain s rs

  pub run : ResourceStore A → List (Call A) → ResourceStore A
  run s [] = s
  run s (c ∷ cs) = run (step s c) cs

  step-IsWellFormed : (s : ResourceStore A) (c : Call A) → IsWellFormed s → IsWellFormed (step s c)
  unfolding step
  step-IsWellFormed s (publishes k a m) w = publish-IsWellFormed s k a m w
  step-IsWellFormed s (retains rs) w = retain-IsWellFormed s rs w

  run_from-IsWellFormed :
      (s : ResourceStore A) (cs : List (Call A)) → IsWellFormed s → IsWellFormed (run s cs)
  unfolding run
  run_from-IsWellFormed s [] w = w
  run_from-IsWellFormed s (c ∷ cs) w = run_from-IsWellFormed (step s c) cs (step-IsWellFormed s c w)

  -- After any calls on an empty store no resource has two values, and once discovery manages the
  -- store no resource outside the active set has one.
  pub run-IsWellFormed : (cs : List (Call A)) → IsWellFormed (run empty cs)
  run-IsWellFormed cs = run_from-IsWellFormed empty cs empty-IsWellFormed

  abbrev is_publish : Call A → Bool
  is_publish (publishes k a m) = true
  is_publish (retains rs) = false

  abbrev pub OnlyPublishes : List (Call A) → Type 0
  OnlyPublishes = All (λ c. is_publish c ≡ true)

  step-scope :
      (s : ResourceStore A) (c : Call A)
      → is_publish c ≡ true
      → ((step s c).active ≡ s.active) × ((step s c).managed ≡ s.managed)
  unfolding step publish
  step-scope s (publishes k a m) h = ground arith
  step-scope s (retains rs) h = cc

  run-scope :
      (s : ResourceStore A) (cs : List (Call A))
      → OnlyPublishes cs
      → ((run s cs).active ≡ s.active) × ((run s cs).managed ≡ s.managed)
  unfolding run
  run-scope s [] h = (refl, refl)
  run-scope s (c ∷ cs) (p, h) = ground (arith, step-scope s c p, run-scope (step s c) cs h)

  lookup-load-none :
      (s : ResourceStore A) (k : String) (now : ℕ)
      → lookup k s.values ≡ none
      → lookup k (load s now) ≡ none
  unfolding load
  lookup-load-none s k now e = lookup-select-none _ k s.values e

  retain-active : (s : ResourceStore A) (rs : List String) → (retain s rs).active ≡ rs
  unfolding retain
  retain-active s rs = refl

  retain-managed : (s : ResourceStore A) (rs : List String) → (retain s rs).managed ≡ true
  unfolding retain
  retain-managed s rs = refl

  -- A resource that the latest discovery did not list is never served again, whatever late results
  -- are published after it, until another discovery lists it.
  pub retain_drops :
      (before after : List (Call A)) (rs : List String) (k : String) (now : ℕ)
      → contains k rs ≡ false
      → OnlyPublishes after
      → lookup k (load (run (retain (run empty before) rs) after) now) ≡ none
  retain_drops before after rs k now out late =
      let kept = retain (run empty before) rs in
      let w = retain-IsWellFormed _ rs (run-IsWellFormed before) in
      let same = run-scope kept after late in
      lookup-load-none (run kept after) k now (
        (run_from-IsWellFormed kept after w).scoped (same.1 ∙ retain-managed (run empty before) rs)
          k (ap (contains k) (same.0 ∙ retain-active (run empty before) rs) ∙ out))
