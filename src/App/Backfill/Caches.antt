-- ===== src/App/Backfill/Caches.antt =====
-- The cache that a filling of the bandwidth cache begins with, and what every cache on the way is.
use qiniu_exporter.App.Backfill.{CdnBandwidthCache, candidate, same_texts}
use qiniu_exporter.App.Merge.{
  merge_bandwidth_rows, merge_both, merge_cdn_bandwidth_usage, zero_cdn_bandwidth_usage,
}
use qiniu_exporter.Base.{
  Bool-cases, List, String, [], ap, arith, eq_iff, inl, inr, length, ltb, not, refl, sym, true, ℕ,
  ◌==◌, ◌||◌, ◌∙◌, ◌∷◌, ◌≡◌, ◌≤◌,
}
use qiniu_exporter.Base.Floats.{Floats}
use qiniu_exporter.Base.Result.{>>=-eq-ok, ok, ok-injective, refuse_if}
use qiniu_exporter.Cdn.{series_misaligned}
use qiniu_exporter.Cdn.Usage.Bandwidth.{BandwidthUsageAggregate}

same_texts-eq : (xs ys : List String) → same_texts xs ys ≡ true → xs ≡ ys
unfolding same_texts
same_texts-eq [] [] h = refl
same_texts-eq [] (y ∷ ys) h = cc
same_texts-eq (x ∷ xs) [] h = cc
same_texts-eq (x ∷ xs) (y ∷ ys) h = ground (arith, eq_iff x y, same_texts-eq xs ys)

module _ {F : Type 0} (fl : Floats F) where
  pub merge-period_start :
      (prior current : BandwidthUsageAggregate F) {result : BandwidthUsageAggregate F}
      → merge_cdn_bandwidth_usage fl prior current ≡ ok result
      → result.period_start ≡ prior.period_start
  unfolding merge_cdn_bandwidth_usage merge_both
  merge-period_start prior current {result = result} h =
      elim (Bool-cases (prior.bucket_count == 0)) [
        | inl e ↦
            ap (λ (r : BandwidthUsageAggregate F). r.period_start) (sym (ok-injective (rw e at h)))
        | inr e ↦ elim (Bool-cases (current.bucket_count == 0)) [
          | inl e' ↦
              ap (λ (r : BandwidthUsageAggregate F). r.period_start)
                (sym (ok-injective (rw (e, e') at h)))
          | inr e' ↦
              let joined : merge_both fl prior current ≡ ok result = rw (e, e') at h in
              let (u, e0, h0) =
                >>=-eq-ok
                  (refuse_if (not (length prior.domains == length current.domains))
                    series_misaligned)
                  _ joined in
              let (rows, e1, h1) =
                >>=-eq-ok (merge_bandwidth_rows fl prior.domains current.domains) _ h0 in
              ap (λ (r : BandwidthUsageAggregate F). r.period_start) (sym (ok-injective h1))
        ]
      ]

  -- The cache is of this month and of these domains, its end lies in the period, and its aggregate
  -- starts with the month.
  pub record IsCache (month_start target : ℕ) (domains : List String) (c : CdnBandwidthCache F)
      : Type 0 where
    pub of_month : c.month_start ≡ month_start
    pub of_domains : c.domains ≡ domains
    pub from_start : month_start ≤ c.period_end
    pub in_period : c.period_end ≤ target
    pub starts : c.aggregate.period_start ≡ month_start

  pub candidate-IsCache :
      (month_start target : ℕ) (domains : List String) (cache : CdnBandwidthCache F)
      → month_start ≤ target
      → cache.aggregate.period_start ≡ cache.month_start
      → IsCache month_start target domains (candidate fl cache month_start domains target)
  unfolding candidate zero_cdn_bandwidth_usage
  candidate-IsCache month_start target domains cache le start =
      elim (Bool-cases (
        not (cache.month_start == month_start)
        || not (same_texts cache.domains domains)
        || ltb cache.period_end month_start
        || ltb target cache.period_end)) [
          | inl e ↦ rw e (record {
            of_month = refl;
            of_domains = refl;
            from_start = omega arith;
            in_period = le;
            starts = refl;
          })
          | inr e ↦ rw e (record {
            of_month = ground arith;
            of_domains = same_texts-eq cache.domains domains (ground arith);
            from_start = ground arith;
            in_period = ground arith;
            starts = start ∙ ground arith;
          })
        ]
