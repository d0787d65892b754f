-- ===== src/Kodo/Newest.antt =====
-- Which point the selectors of transform.go choose.
use qiniu_exporter.Base.{
  All, Bool-cases, List, Option, [], ap, arith, drop, false, get_elem?, if◌then◌else◌, inl, inr,
  length, ltb, none, not, refl, some, subst, suc, sym, ℕ, ◌%◌, ◌+◌, ◌-◌, ◌<◌, ◌==◌, ◌∙◌, ◌∷◌, ◌≡◌,
  ◌≤◌, ◌⊎◌,
}
use qiniu_exporter.Base.Floats.{Floats}
use qiniu_exporter.Base.Result.{>>=-eq-ok, ok, ok-injective, or_fail-eq-ok, refuse_if}
use qiniu_exporter.Base.Time.{is_zero_time}
use qiniu_exporter.Kodo.{
  Point, bucket_width, comes_after, ends_by, index_panic, insufficient_points, invalid,
  invalid_input, latest_safe_5min_index, non_continuous, point_at, scan_safe,
  select_latest_safe_5min, select_latest_safe_rate_5min, unexpected_response,
}

module _ {F : Type 0} (fl : Floats F) where
  -- Point i: its bucket ends by `safe_before`, its value can be used, and no later bucket ends by
  -- then.
  pub record IsNewest (points : List (Point F)) (safe_before i : ℕ) (p : Point F) : Type 0 where
    pub chosen : get_elem? points i ≡ some p
    pub safe : p.time + bucket_width ≤ safe_before
    pub good : invalid fl p.value ≡ false
    pub newest : All (λ (q : Point F). safe_before < q.time + bucket_width) (drop (suc i) points)

  -- What a scan from index i on finds: nothing newer than before, or the newest of the points left.
  abbrev Found : ℕ → ℕ → Option ℕ → List (Point F) → Option ℕ → Type 0
  Found safe_before i latest ps last =
      ((last ≡ latest) × All (λ (q : Point F). safe_before < q.time + bucket_width) ps)
      ⊎ ((j : ℕ) × (p : Point F) × (last ≡ some (i + j)) × IsNewest ps safe_before j p)

  first_or_later :
      (safe_before i : ℕ) (latest : Option ℕ) (p : Point F) (ps : List (Point F)) (last : Option ℕ)
      → invalid fl p.value ≡ false
      → Found safe_before (suc i) (if ends_by safe_before p.time then some i else latest) ps last
      → Found safe_before i latest (p ∷ ps) last
  first_or_later safe_before i latest p ps last good (inr (j, q, e, n)) = inr (
    suc j,
    q,
    e ∙ ap some (omega arith),
    record { chosen = n.chosen; safe = n.safe; good = n.good; newest = n.newest },
  )
  first_or_later safe_before i latest p ps last good (inl (e, none_safe)) =
      elim (Bool-cases (ends_by safe_before p.time)) [
        | inl s ↦ inr (
          0,
          p,
          rw s at e ∙ ap some (omega arith),
          record { chosen = refl; safe = ground arith; good = good; newest = none_safe },
        )
        | inr s ↦ inl (rw s at e, (ground arith, none_safe))
      ]

  scan_safe-Found :
      (safe_before i : ℕ) (previous latest : Option ℕ) (ps : List (Point F)) {last : Option ℕ}
      → scan_safe fl safe_before i previous latest ps ≡ ok last
      → Found safe_before i latest ps last
  unfolding scan_safe
  scan_safe-Found safe_before i previous latest [] h = inl (sym (ok-injective h), tt)
  scan_safe-Found safe_before i previous latest (p ∷ ps) {last = last} h =
      let (u1, e1, h1) = >>=-eq-ok (refuse_if (is_zero_time p.time) unexpected_response) _ h in
      let (u2, e2, h2) =
        >>=-eq-ok (refuse_if (not (p.time % bucket_width == 0)) unexpected_response) _ h1 in
      let (u3, e3, h3) = >>=-eq-ok (refuse_if (invalid fl p.value) unexpected_response) _ h2 in
      let (u4, e4, h4) =
        >>=-eq-ok (refuse_if (not (comes_after previous p.time)) non_continuous) _ h3 in
      let further =
        scan_safe-Found safe_before (suc i) (some p.time)
          (if ends_by safe_before p.time then some i else latest) ps {last = last} h4 in
      first_or_later safe_before i latest p ps last (ground arith) further

  latest_safe_5min_index-IsNewest :
      (points : List (Point F)) (safe_before : ℕ) {i : ℕ}
      → latest_safe_5min_index fl points safe_before ≡ ok i
      → (p : Point F) × IsNewest points safe_before i p
  unfolding latest_safe_5min_index
  latest_safe_5min_index-IsNewest points safe_before {i = i} h =
      let (u1, e1, h1) = >>=-eq-ok (refuse_if (is_zero_time safe_before) invalid_input) _ h in
      let (u2, e2, h2) = >>=-eq-ok (refuse_if (length points == 0) insufficient_points) _ h1 in
      let (last, e3, h3) = >>=-eq-ok (scan_safe fl safe_before 0 none none points) _ h2 in
      let there : last ≡ some i = or_fail-eq-ok last insufficient_points h3 in
      elim (scan_safe-Found safe_before 0 none none points e3) [
        | inl (e, n) ↦ absurd (ground arith)
        | inr (j, p, e, n) ↦
            let same : j ≡ i = ground arith in
            (p, subst (λ k. IsNewest points safe_before k p) same n)
      ]

  -- The point that is selected is one of the given points, its bucket has ended by `safe_before`,
  -- its value is neither negative nor a NaN nor an infinity, and no point behind it has ended too.
  pub select_latest_safe_5min-IsNewest :
      (points : List (Point F)) (safe_before : ℕ) {p : Point F}
      → select_latest_safe_5min fl points safe_before ≡ ok p
      → (i : ℕ) × IsNewest points safe_before i p
  unfolding select_latest_safe_5min
  select_latest_safe_5min-IsNewest points safe_before {p = p} h =
      let (i, e, h1) = >>=-eq-ok (latest_safe_5min_index fl points safe_before) _ h in
      let (q, n) = latest_safe_5min_index-IsNewest points safe_before e in
      let here = or_fail-eq-ok (get_elem? points i) index_panic h1 in
      let same : q ≡ p = cc (n.chosen, here) in (i, subst (IsNewest points safe_before i) same n)

  -- The point that a rate is taken at is the newest whose bucket ends by `safe_before`, with a value
  -- that is neither negative nor a NaN nor an infinity, and the point just before is there too,
  -- exactly one bucket earlier: a gap before the newest point is never bridged by an older pair.
  pub select_latest_safe_rate_5min-IsNewest :
      (points : List (Point F)) (safe_before : ℕ) {p : Point F}
      → select_latest_safe_rate_5min fl points safe_before ≡ ok p
      → (i : ℕ) × (q : Point F) × IsNewest points safe_before (suc i) p
        × (get_elem? points i ≡ some q)
        × (p.time ≡ q.time + bucket_width)
  unfolding select_latest_safe_rate_5min
  select_latest_safe_rate_5min-IsNewest points safe_before {p = p} h =
      let (i, e, h1) = >>=-eq-ok (latest_safe_5min_index fl points safe_before) _ h in
      let (u, e1, h2) = >>=-eq-ok (refuse_if (ltb i 1) insufficient_points) _ h1 in
      let (latest, e2, h3) = >>=-eq-ok (point_at points i) _ h2 in
      let (before, e3, h4) = >>=-eq-ok (point_at points (i - 1)) _ h3 in
      let (u', e4, h5) =
        >>=-eq-ok (refuse_if (not (latest.time == before.time + bucket_width)) non_continuous) _
          h4 in
      let (q, n) = latest_safe_5min_index-IsNewest points safe_before e in
      let here = or_fail-eq-ok (get_elem? points i) index_panic e2 in
      let same : latest ≡ p = ok-injective h5 in
      let chosen : q ≡ p = cc (n.chosen, here, same) in
      let next : i ≡ suc (i - 1) = ground arith in
      let width : latest.time ≡ before.time + bucket_width = ground arith in
      (
        i - 1,
        before,
        subst (λ k. IsNewest points safe_before k p) next
            (subst (IsNewest points safe_before i) chosen n),
        or_fail-eq-ok (get_elem? points (i - 1)) index_panic e3,
        ap (λ (x : Point F). x.time) (sym same) ∙ width,
      )
