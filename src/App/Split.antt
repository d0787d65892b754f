-- ===== src/App/Split.antt =====
-- What the splitting into batches and the matching of bucket ends promise.
use qiniu_exporter.App.{all_match, batches, batches_from, matching_bucket_end}
use qiniu_exporter.Base.{
  All, List, [], ap, arith, drop, length, length-drop, length-take, refl, subst, suc, sym, take,
  take-append-drop, true, zero, ℕ, ◌++◌, ◌<◌, ◌↔◌, ◌∙◌, ◌∷◌, ◌≡◌, ◌≢◌, ◌≤◌,
}
use qiniu_exporter.Base.Result.{ok}
use qiniu_exporter.Base.Time.{zero_time}

module _ {A : Type 0} where
  abbrev pub join : List (List A) → List A
  join [] = []
  join (b ∷ bs) = b ++ join bs

  join-batches_from :
      (fuel size : ℕ) (values : List A)
      → 0 < size
      → length values ≤ fuel
      → (join (batches_from fuel size values) ≡ values)
        × All (λ b. (0 < length b) × (length b ≤ size)) (batches_from fuel size values)
  unfolding batches_from
  join-batches_from zero size [] p h = (refl, tt)
  join-batches_from zero size (v ∷ vs) p h = absurd (omega arith)
  join-batches_from (suc fuel) size [] p h = (refl, tt)
  join-batches_from (suc fuel) size (v ∷ vs) p h =
      let rest =
        join-batches_from fuel size (drop size (v ∷ vs)) p
          (omega (arith, length-drop size (v ∷ vs))) in
      (
        ap (◌++◌ (take size (v ∷ vs))) rest.0 ∙ take-append-drop size (v ∷ vs),
        (
          (omega (arith, length-take size (v ∷ vs)), omega (arith, length-take size (v ∷ vs))),
          rest.1,
        ),
      )

  -- Batches of a positive size put together again are the values, in their order and none lost or
  -- repeated; no batch is empty and none exceeds the size.
  pub join-batches :
      (values : List A) (size : ℕ)
      → 0 < size
      → (join (batches values size) ≡ values)
        × All (λ b. (0 < length b) × (length b ≤ size)) (batches values size)
  unfolding batches
  join-batches values size p = join-batches_from (length values) size values p (omega arith)

all_match-All :
    (selected : ℕ) (bs : List ℕ) → all_match selected bs ≡ true → All (λ b. b ≡ selected) bs
unfolding all_match
all_match-All selected [] h = tt
all_match-All selected (b ∷ bs) h = ground (arith, all_match-All selected bs)

All-all_match :
    (selected : ℕ) (bs : List ℕ)
    → selected ≢ zero_time
    → All (λ b. b ≡ selected) bs
    → all_match selected bs ≡ true
unfolding all_match
All-all_match selected [] n h = refl
All-all_match selected (b ∷ bs) n (p, h) = ground (arith, All-all_match selected bs)

-- The samples of a collection are given a common data time exactly when there is one: when they all
-- end at that instant, and it is not the zero time.
pub matching_bucket_end_iff :
    (b : ℕ) (bs : List ℕ) (t : ℕ)
    → (matching_bucket_end (b ∷ bs) ≡ ok t) ↔ ((t ≢ zero_time) × All (λ x. x ≡ t) (b ∷ bs))
unfolding matching_bucket_end
matching_bucket_end_iff b bs t = (
  λ h.
      let same : b ≡ t = ground arith in
      let nonzero : b ≢ zero_time = λ e. ground arith in
      let matched : all_match b bs ≡ true = ground arith in
      (
        λ e. nonzero (same ∙ e),
        (same, subst (λ x. All (λ y. y ≡ x) bs) same (all_match-All b bs matched)),
      ),
  λ (n, (same, h)).
      let matched : all_match b bs ≡ true =
        All-all_match b bs (λ e. n (sym same ∙ e))
          (subst (λ x. All (λ y. y ≡ x) bs) (sym same) h) in
      ground arith,
)
