-- ===== src/Cdn/Usage/Coverage.antt =====
-- What `usagePeriodIndexes` promises: the selected starts are the buckets of the period.
use qiniu_exporter.Base.{
  Bool-cases, List, [], ap, arith, drop, get_elem?, inl, inr, length, length-drop, ltb, not, some,
  subst, suc, take, zero, ℕ, ◌+◌, ◌-◌, ◌<◌, ◌==◌, ◌||◌, ◌∙◌, ◌∷◌, ◌≡◌, ◌≤◌,
}
use qiniu_exporter.Base.Calendar.{Location, wall}
use qiniu_exporter.Base.Result.{>>=-eq-ok, ok, or_fail, or_fail-eq-ok, refuse_if}
use qiniu_exporter.Base.Time.{is_zero_time}
use qiniu_exporter.Cdn.{invalid_input, series_misaligned}
use qiniu_exporter.Cdn.Usage.{
  Granularity, bucket_end, cover, find_start, is_aligned_to, slice, usage_period_indexes,
}

-- The points are the starts of the buckets from `cursor` on, the last of which ends at `end`.
abbrev pub Covers : Granularity → ℕ → ℕ → List ℕ → Type 0
Covers g cursor end [] = cursor ≡ end
Covers g cursor end (t ∷ ts) = (t ≡ cursor) × Covers g (bucket_end g cursor) end ts

find_start-index :
    (start i : ℕ) (ts : List ℕ) {k : ℕ}
    → find_start start i ts ≡ some k
    → (j : ℕ) × (k ≡ i + j) × (j < length ts) × (get_elem? ts j ≡ some start)
unfolding find_start
find_start-index start i [] h = cc
find_start-index start i (t ∷ ts) h = elim (Bool-cases (t == start)) [
  | inl e ↦ (0, ground arith, omega arith, ground arith)
  | inr e ↦
      let (j, k, lt, g) = find_start-index start (suc i) ts (rw e at h) in
      (suc j, omega arith, omega arith, g)
]

-- The cursor walks over whole buckets that the points name.
cover-Covers :
    (g : Granularity) (end cursor i : ℕ) (ts : List ℕ) {c j : ℕ}
    → cover g end cursor i ts ≡ ok (c, j)
    → (n : ℕ) × (j ≡ i + n) × (n ≤ length ts) × Covers g cursor c (take n ts)
unfolding cover
cover-Covers g end cursor i [] h = (0, ground arith, omega arith, ground arith)
cover-Covers g end cursor i (t ∷ ts) {c = c} {j = j} h = elim (Bool-cases (ltb cursor end)) [
  | inr e ↦ (0, ground arith, omega arith, ground arith)
  | inl e ↦ elim (Bool-cases (t == cursor)) [
    | inr f ↦ absurd (ground arith)
    | inl f ↦
        let (n, k, le, cov) =
          cover-Covers g end (bucket_end g cursor) (suc i) ts {c = c} {j = j}
            (ground (arith, e, f)) in
        (suc n, omega arith, omega arith, (ground arith, cov))
  ]
]

period_parts :
    (starts : List ℕ) (g : Granularity) (period_start period_end : ℕ) (location : Location)
    {i j : ℕ}
    → usage_period_indexes starts g period_start period_end location ≡ ok (i, j)
    → (k : ℕ) × (c : ℕ) × (e : ℕ) × (find_start period_start 0 starts ≡ some k)
      × (cover g period_end period_start k (drop k starts) ≡ ok (c, e))
      × (c ≡ period_end)
      × (k ≡ i)
      × (e ≡ j)
      × (period_start < period_end)
unfolding usage_period_indexes
period_parts starts g period_start period_end location h =
    let (u1, e1, h1) =
      >>=-eq-ok (refuse_if (is_zero_time period_start || is_zero_time period_end) invalid_input) _
        h in
    let (u2, e2, h2) =
      >>=-eq-ok (refuse_if (not (ltb period_start period_end)) invalid_input) _ h1 in
    let (u3, e3, h3) =
      >>=-eq-ok
        (refuse_if
          (not (is_aligned_to g (wall location period_start))
            || not (is_aligned_to g (wall location period_end)))
          invalid_input)
        _ h2 in
    let (k, e4, h4) =
      >>=-eq-ok (or_fail (find_start period_start 0 starts) series_misaligned) _ h3 in
    let (p, e5, h5) = >>=-eq-ok (cover g period_end period_start k (drop k starts)) _ h4 in
    (
      k,
      p.0,
      p.1,
      or_fail-eq-ok (find_start period_start 0 starts) series_misaligned e4,
      e5,
      ground arith,
      ground arith,
      ground arith,
      ground arith,
    )

-- From a cursor before its end a walk takes one point at least.
Covers-proper :
    (g : Granularity) (cursor end n : ℕ) (ts : List ℕ)
    → cursor < end
    → Covers g cursor end (take n ts)
    → 0 < n
Covers-proper g cursor end zero ts lt h = absurd (omega arith)
Covers-proper g cursor end (suc n) ts lt h = omega arith

selected-Covers :
    (starts : List ℕ) (g : Granularity) (start end i j : ℕ)
    → find_start start 0 starts ≡ some i
    → cover g end start i (drop i starts) ≡ ok (end, j)
    → start < end
    → Covers g start end (slice i j starts) × (j ≤ length starts) × (i < j)
selected-Covers starts g start end i j f c lt =
    let (m, im, inside, at_m) = find_start-index start 0 starts f in
    let (n, jn, le, cov) = cover-Covers g end start i (drop i starts) c in
    let width : n ≡ j - i = omega arith in
    let pos_n = Covers-proper g start end n (drop i starts) lt cov in
    (
      subst (λ w. Covers g start end (take w (drop i starts))) width cov,
      omega (arith, length-drop i starts),
      omega arith,
    )

-- Where a response is accepted for a period, the selected points are exactly the buckets of the
-- period, from its start to its end, with none missing, none twice and none beyond; the indexes lie
-- within the axis and select at least one point.
pub usage_period_indexes-Covers :
    (starts : List ℕ) (g : Granularity) (period_start period_end : ℕ) (location : Location)
    {i j : ℕ}
    → usage_period_indexes starts g period_start period_end location ≡ ok (i, j)
    → Covers g period_start period_end (slice i j starts) × (j ≤ length starts) × (i < j)
usage_period_indexes-Covers starts g period_start period_end location h =
    let (k, c, e, f, cov, stop, same_i, same_j, lt) =
      period_parts starts g period_start period_end location h in
    selected-Covers starts g period_start period_end _ _ (f ∙ ap some same_i)
      (subst
        (λ (q : ℕ × ℕ × ℕ). cover g period_end period_start q.0 (drop q.0 starts) ≡ ok (q.1, q.2))
        (λ n. (same_i n, stop n, same_j n)) cov)
      lt
