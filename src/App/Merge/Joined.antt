-- ===== src/App/Merge/Joined.antt =====
-- What the joined usage of two periods promises.
use qiniu_exporter.App.Merge.{
  merge_bandwidth_row, merge_bandwidth_rows, merge_both, merge_cdn_bandwidth_usage,
  merge_cdn_traffic_usage, merge_traffic_rows,
}
use qiniu_exporter.App.Merge.Rows.{JoinedRows, merge_traffic_rows-IsTotal}
use qiniu_exporter.Base.{
  All, Bool-cases, List, [], arith, eq_iff, if◌then◌else◌, inl, inr, length, not, refl, str_eq,
  subst, true, ℕ, ◌+◌, ◌<◌, ◌==◌, ◌||◌, ◌∷◌, ◌≡◌, ◌⊎◌,
}
use qiniu_exporter.Base.Floats.{Floats}
use qiniu_exporter.Base.Floats.Laws.{OrderLaws}
use qiniu_exporter.Base.Result.{>>=-eq-ok, ok, ok-injective, refuse_if}
use qiniu_exporter.Cdn.{series_misaligned}
use qiniu_exporter.Cdn.Usage.Bandwidth.{BandwidthUsageAggregate, DomainBandwidthUsage}
use qiniu_exporter.Cdn.Usage.Totals.{IsTotal, names}
use qiniu_exporter.Cdn.Usage.Traffic.{TrafficUsageAggregate}

module _ {F : Type 0} (fl : Floats F) where
  -- Where the traffic of two periods is joined, both list the same domains in the same order; a
  -- row's bytes of each region are the sum of the two periods' bytes, its bytes are the sum of the
  -- two regions, and the account's bytes are those of the rows added up from zero. It runs from the
  -- start of the first period to the end of the second and counts the buckets of both.
  pub merge_cdn_traffic_usage-IsTotal :
      (prior today : TrafficUsageAggregate F) {result : TrafficUsageAggregate F}
      → merge_cdn_traffic_usage fl prior today ≡ ok result
      → (names fl prior.domains ≡ names fl today.domains)
        × JoinedRows fl prior.domains today.domains result.domains
        × IsTotal fl fl.zero_f (names fl today.domains) (result.domains, result.account_bytes)
        × (result.period_start ≡ prior.period_start)
        × (result.period_end ≡ today.period_end)
        × (result.bucket_count ≡ prior.bucket_count + today.bucket_count)
  unfolding merge_cdn_traffic_usage
  merge_cdn_traffic_usage-IsTotal prior today h =
      let (u, e0, h0) =
        >>=-eq-ok (refuse_if (not (length prior.domains == length today.domains)) series_misaligned)
          _ h in
      let (p, e1, h1) =
        >>=-eq-ok (merge_traffic_rows fl fl.zero_f prior.domains today.domains) _ h0 in
      let (same, joined, total) =
        merge_traffic_rows-IsTotal fl fl.zero_f prior.domains today.domains (ground arith) e1 in
      subst
        (λ (r : TrafficUsageAggregate F).
          (names fl prior.domains ≡ names fl today.domains)
          × JoinedRows fl prior.domains today.domains r.domains
          × IsTotal fl fl.zero_f (names fl today.domains) (r.domains, r.account_bytes)
          × (r.period_start ≡ prior.period_start)
          × (r.period_end ≡ today.period_end)
          × (r.bucket_count ≡ prior.bucket_count + today.bucket_count))
        (ok-injective h1) (same, joined, total, refl, refl, refl)

  -- The peak and its time are those of one of the two, and the peak is below neither.
  abbrev pub IsHigher : F × ℕ → F × ℕ → F × ℕ → Type 0
  IsHigher (a, s) (b, t) (c, u) =
      (((c ≡ a) × (u ≡ s)) ⊎ ((c ≡ b) × (u ≡ t)))
      × (fl.at_most a c ≡ true)
      × (fl.at_most b c ≡ true)

  abbrev pub MergedRows :
      List (DomainBandwidthUsage F)
      → List (DomainBandwidthUsage F)
      → List (DomainBandwidthUsage F)
      → Type 0
  MergedRows [] [] [] = Unit
  MergedRows (p ∷ ps) (c ∷ cs) (r ∷ rs) =
      (p.domain ≡ c.domain)
      × (r.domain ≡ p.domain)
      × (r.active ≡ (p.active || c.active))
      × IsHigher (p.peak_bits_per_second, p.peak_at) (c.peak_bits_per_second, c.peak_at)
          (r.peak_bits_per_second, r.peak_at)
      × MergedRows ps cs rs
  MergedRows _ _ _ = ⊥

  abbrev pub IsNonneg : DomainBandwidthUsage F → Type 0
  IsNonneg r = fl.at_most fl.zero_f r.peak_bits_per_second ≡ true

  merged_domain :
      (p c : DomainBandwidthUsage F)
      → p.domain ≡ c.domain
      → (merge_bandwidth_row fl p c).domain ≡ p.domain
  unfolding merge_bandwidth_row
  merged_domain p c same = ground arith

  merged_active :
      (p c : DomainBandwidthUsage F) → (merge_bandwidth_row fl p c).active ≡ (p.active || c.active)
  unfolding merge_bandwidth_row
  merged_active p c = refl

  module _ (laws : OrderLaws fl) where
    merge_bandwidth_row-IsHigher :
        (p c : DomainBandwidthUsage F)
        → IsNonneg p
        → IsNonneg c
        → IsHigher
            (p.peak_bits_per_second, p.peak_at)
            (c.peak_bits_per_second, c.peak_at)
            (
              (merge_bandwidth_row fl p c).peak_bits_per_second,
              (merge_bandwidth_row fl p c).peak_at,
            )
    unfolding merge_bandwidth_row
    merge_bandwidth_row-IsHigher p c np nc =
        elim (Bool-cases (fl.below p.peak_bits_per_second c.peak_bits_per_second)) [
          | inl e ↦ rw e (
            inr (refl, refl),
            laws.below_at_most p.peak_bits_per_second c.peak_bits_per_second e,
            laws.at_most_refl c.peak_bits_per_second nc,
          )
          | inr e ↦ rw e (
            inl (refl, refl),
            laws.at_most_refl p.peak_bits_per_second np,
            laws.not_below p.peak_bits_per_second c.peak_bits_per_second np nc e,
          )
        ]

    merge_bandwidth_rows-MergedRows :
        (ps cs : List (DomainBandwidthUsage F)) {rs : List (DomainBandwidthUsage F)}
        → length ps ≡ length cs
        → All IsNonneg ps
        → All IsNonneg cs
        → merge_bandwidth_rows fl ps cs ≡ ok rs
        → MergedRows ps cs rs
    unfolding merge_bandwidth_rows
    merge_bandwidth_rows-MergedRows [] [] same np nc h =
        subst (MergedRows [] []) (ok-injective h) tt
    merge_bandwidth_rows-MergedRows (p ∷ ps) [] same np nc h = absurd (omega arith)
    merge_bandwidth_rows-MergedRows [] (c ∷ cs) same np nc h = absurd (omega arith)
    merge_bandwidth_rows-MergedRows (p ∷ ps) (c ∷ cs) same (np, nps) (nc, ncs) h =
        let (u, e0, h0) =
          >>=-eq-ok (refuse_if (not (str_eq p.domain c.domain)) series_misaligned) _ h in
        let (rows, e1, h1) = >>=-eq-ok (merge_bandwidth_rows fl ps cs) _ h0 in
        let named : p.domain ≡ c.domain = ground (arith, eq_iff p.domain c.domain) in
        subst (MergedRows (p ∷ ps) (c ∷ cs)) (ok-injective h1) (
          named,
          merged_domain p c named,
          merged_active p c,
          merge_bandwidth_row-IsHigher p c np nc,
          merge_bandwidth_rows-MergedRows ps cs (omega arith) nps ncs e1,
        )

    higher :
        (a b : F) (s t : ℕ)
        → fl.at_most fl.zero_f a ≡ true
        → fl.at_most fl.zero_f b ≡ true
        → IsHigher (a, s) (b, t) (if fl.at_most b a then a else b, if fl.at_most b a then s else t)
    higher a b s t na nb = elim (Bool-cases (fl.at_most b a)) [
      | inl e ↦ rw e (inl (refl, refl), laws.at_most_refl a na, e)
      | inr e ↦ rw e (inr (refl, refl), laws.at_most_total b a nb na e, laws.at_most_refl b nb)
    ]

    -- Where the bandwidth of two periods with buckets is joined, both list the same domains in the
    -- same order; each domain, and the account, gets the higher of its two peaks with the time of
    -- that peak, and a domain is active if it was in either period (for peaks that are not
    -- negative).
    pub merge_cdn_bandwidth_usage-MergedRows :
        (prior current : BandwidthUsageAggregate F) {result : BandwidthUsageAggregate F}
        → 0 < prior.bucket_count
        → 0 < current.bucket_count
        → All IsNonneg prior.domains
        → All IsNonneg current.domains
        → fl.at_most fl.zero_f prior.account_peak_bits_per_second ≡ true
        → fl.at_most fl.zero_f current.account_peak_bits_per_second ≡ true
        → merge_cdn_bandwidth_usage fl prior current ≡ ok result
        → MergedRows prior.domains current.domains result.domains
          × IsHigher
              (prior.account_peak_bits_per_second, prior.account_peak_at)
              (current.account_peak_bits_per_second, current.account_peak_at)
              (result.account_peak_bits_per_second, result.account_peak_at)
    unfolding merge_cdn_bandwidth_usage merge_both
    merge_cdn_bandwidth_usage-MergedRows prior current {result = result} bp bc np nc ap_ ac h =
        let joined : merge_both fl prior current ≡ ok result = ground arith in
        let (u, e0, h0) =
          >>=-eq-ok
            (refuse_if (not (length prior.domains == length current.domains)) series_misaligned) _
            joined in
        let (rows, e1, h1) =
          >>=-eq-ok (merge_bandwidth_rows fl prior.domains current.domains) _ h0 in
        subst
          (λ (r : BandwidthUsageAggregate F).
            MergedRows prior.domains current.domains r.domains
            × IsHigher (prior.account_peak_bits_per_second, prior.account_peak_at)
                (current.account_peak_bits_per_second, current.account_peak_at)
                (r.account_peak_bits_per_second, r.account_peak_at))
          (ok-injective h1)
          (
            merge_bandwidth_rows-MergedRows prior.domains current.domains (ground arith) np nc e1,
            higher prior.account_peak_bits_per_second current.account_peak_bits_per_second
                prior.account_peak_at current.account_peak_at ap_ ac,
          )
