-- ===== src/App/Backfill/Chunks.antt =====
-- The chunks that a filling of the bandwidth cache fetches and joins, from which cache it begins, and
-- what it stops at.
use qiniu_exporter.App.Backfill.{
  CdnBandwidthCache, LoadError, as_load, candidate, chunk_end, next_chunk, partial_failures,
  refused, same_texts, segment, usage_batches,
}
use qiniu_exporter.App.Isolation.{Round, fetch_cdn_metering_batches}
use qiniu_exporter.App.Merge.{merge_cdn_bandwidth_usage, zero_cdn_bandwidth_usage}
use qiniu_exporter.Base.{
  Bool-cases, List, Option, String, [], arith, eq_iff, false, inl, inr, ltb, refl, subst, sym, true,
  ℕ, ◌<◌, ◌==◌, ◌∷◌, ◌≡◌, ◌⊎◌,
}
use qiniu_exporter.Base.Calendar.{Location}
use qiniu_exporter.Base.Floats.{Floats}
use qiniu_exporter.Base.Result.{Result, Result-cases, err, ok}
use qiniu_exporter.Cdn.{CdnError, MonitoringResponse}
use qiniu_exporter.Cdn.Usage.{five_minutes}
use qiniu_exporter.Cdn.Usage.Bandwidth.{BandwidthUsageAggregate, aggregate_bandwidth_usage}

same_texts_refl : (xs : List String) → same_texts xs xs ≡ true
unfolding same_texts
same_texts_refl [] = refl
same_texts_refl (x ∷ xs) = ground (arith, eq_iff x x, same_texts_refl xs)

other_texts : (xs ys : List String) → same_texts xs ys ≡ false → ¬ (xs ≡ ys)
other_texts xs ys h e =
    let same : same_texts xs ys ≡ true =
      subst (λ zs. same_texts xs zs ≡ true) e (same_texts_refl xs) in
    absurd (cc)

as_load-cases :
    {A : Type 0} (r : Result CdnError A)
    → ((a : A) × (r ≡ ok a) × (as_load r ≡ ok a))
      ⊎ ((e : CdnError) × (r ≡ err e) × (as_load r ≡ err (refused e)))
as_load-cases (ok a) = inl (a, refl, refl)
as_load-cases (err e) = inr (e, refl, refl)

List-cases : {A : Type 0} (xs : List A) → (xs ≡ []) ⊎ ((x : A) × (rest : List A) × (xs ≡ x ∷ rest))
List-cases [] = inl refl
List-cases (x ∷ xs) = inr (x, xs, refl)

module _ {F : Type 0} (fl : Floats F) where
  abbrev pub emptied : ℕ → List String → CdnBandwidthCache F
  emptied month_start domains = record {
    month_start = month_start;
    period_end = month_start;
    domains = domains;
    aggregate = zero_cdn_bandwidth_usage fl domains month_start;
  }

  -- The call goes on from the given cache, or from an empty one where the given cache is of another
  -- month or of other domains, or ends outside the period.
  abbrev pub Begins : CdnBandwidthCache F → ℕ → List String → ℕ → CdnBandwidthCache F → Type 0
  Begins cache month_start domains target c =
      (c ≡ cache)
      ⊎ ((c ≡ emptied month_start domains)
          × ((¬ (cache.month_start ≡ month_start))
              ⊎ (¬ (cache.domains ≡ domains))
              ⊎ (cache.period_end < month_start)
              ⊎ (target < cache.period_end)))

  pub candidate-Begins :
      (cache : CdnBandwidthCache F) (month_start : ℕ) (domains : List String) (target : ℕ)
      → Begins cache month_start domains target (candidate fl cache month_start domains target)
  unfolding candidate
  candidate-Begins cache month_start domains target =
      elim (Bool-cases (cache.month_start == month_start)) [
        | inr e ↦ rw e (inr (refl, inl (λ s. ground arith)))
        | inl e ↦ elim (Bool-cases (same_texts cache.domains domains)) [
          | inr e1 ↦ rw (e, e1) (inr (refl, inr (inl (other_texts cache.domains domains e1))))
          | inl e1 ↦ elim (Bool-cases (ltb cache.period_end month_start)) [
            | inl e2 ↦ rw (e, e1, e2) (inr (refl, inr (inr (inl (ground arith)))))
            | inr e2 ↦ elim (Bool-cases (ltb target cache.period_end)) [
              | inl e3 ↦ rw (e, e1, e2, e3) (inr (refl, inr (inr (inr (ground arith)))))
              | inr e3 ↦ rw (e, e1, e2, e3) (inl refl)
            ]
          ]
        ]
      ]

  module _ (fetch : ℕ → ℕ → List String → ℕ → List String → Result CdnError (MonitoringResponse F))
      (location : Option Location) (target : ℕ) where
    -- The fetches of the next chunk's usage, in batches.
    abbrev pub metered : CdnBandwidthCache F → Round (MonitoringResponse F)
    metered c =
        fetch_cdn_metering_batches (fetch c.period_end (chunk_end c.period_end target)) c.domains

    -- What the fetched batches add up to over the chunk.
    abbrev pub summed : CdnBandwidthCache F → Result CdnError (BandwidthUsageAggregate F)
    summed c =
        aggregate_bandwidth_usage fl (usage_batches (metered c).collected) five_minutes c.period_end
          (chunk_end c.period_end target) location

    -- No domain failed, and the usage is what was fetched.
    abbrev pub IsSegment : CdnBandwidthCache F → BandwidthUsageAggregate F → Type 0
    IsSegment c usage = ((metered c).failed ≡ []) × (summed c ≡ ok usage)

    -- From a cache to t, chunk by chunk: the usage of the next chunk is fetched, and joined to what
    -- the cache holds of the time before.
    pub data Chunks (t : CdnBandwidthCache F) : CdnBandwidthCache F → Type 0 where
      filled : Chunks t t
      chunk :
          {c : CdnBandwidthCache F} (usage joined : BandwidthUsageAggregate F)
          → c.period_end < target
          → IsSegment c usage
          → merge_cdn_bandwidth_usage fl c.aggregate usage ≡ ok joined
          → Chunks t (record c { aggregate = joined; period_end = chunk_end c.period_end target })
          → Chunks t c

    -- Domains of the next chunk failed, or their usage is refused.
    abbrev pub SegmentFails : CdnBandwidthCache F → LoadError → Type 0
    SegmentFails c e =
        ((f : String × CdnError) × (fs : List (String × CdnError)) × ((metered c).failed ≡ f ∷ fs)
          × (e ≡ partial_failures (f ∷ fs)))
        ⊎ ((x : CdnError) × ((metered c).failed ≡ []) × (summed c ≡ err x) × (e ≡ refused x))

    -- The next chunk fails, or it cannot be joined to what the cache holds.
    abbrev pub Stops : CdnBandwidthCache F → LoadError → Type 0
    Stops c e =
        SegmentFails c e
        ⊎ ((usage : BandwidthUsageAggregate F) × (x : CdnError) × IsSegment c usage
            × (merge_cdn_bandwidth_usage fl c.aggregate usage ≡ err x)
            × (e ≡ refused x))

    abbrev segment_at : CdnBandwidthCache F → Result LoadError (BandwidthUsageAggregate F)
    segment_at c = segment fl fetch location c.domains c.period_end (chunk_end c.period_end target)

    abbrev Segment : CdnBandwidthCache F → Result LoadError (BandwidthUsageAggregate F) → Type 0
    Segment c (ok usage) = IsSegment c usage
    Segment c (err e) = SegmentFails c e

    segment_at-Segment : (c : CdnBandwidthCache F) → Segment c (segment_at c)
    unfolding segment
    segment_at-Segment c =
        let as_segment : List (String × CdnError) → Result LoadError (BandwidthUsageAggregate F) =
          λ failed. elim failed [
            | [] ↦ as_load (summed c)
            | f ∷ fs ↦ err (partial_failures (f ∷ fs))
          ] in
        elim (List-cases (metered c).failed) [
          | inr (f, fs, m) ↦ subst (λ x. Segment c (as_segment x)) (sym m) (inl (f, fs, m, refl))
          | inl m ↦
              subst (λ x. Segment c (as_segment x)) (sym m)
                (elim (as_load-cases (summed c)) [
                  | inl (usage, q, l) ↦ rw l (m, q)
                  | inr (x, q, l) ↦ rw l (inr (x, m, q, refl))
                ])
        ]

    -- What the body of the loop did: it took a chunk, or stopped.
    abbrev NextChunk : CdnBandwidthCache F → Result LoadError (CdnBandwidthCache F) → Type 0
    NextChunk c (err e) = Stops c e
    NextChunk c (ok c') =
        (usage : BandwidthUsageAggregate F) × (joined : BandwidthUsageAggregate F) × IsSegment c
          usage
        × (merge_cdn_bandwidth_usage fl c.aggregate usage ≡ ok joined)
        × (c' ≡ record c { aggregate = joined; period_end = chunk_end c.period_end target })

    next_chunk-NextChunk :
        (c : CdnBandwidthCache F) → NextChunk c (next_chunk fl fetch location target c)
    unfolding next_chunk
    next_chunk-NextChunk c = elim (Result-cases (segment_at c)) [
      | inr (e, q) ↦ rw q (inl (subst (Segment c) q (segment_at-Segment c)))
      | inl (usage, q) ↦
          let is : IsSegment c usage = subst (Segment c) q (segment_at-Segment c) in
          elim (as_load-cases (merge_cdn_bandwidth_usage fl c.aggregate usage)) [
            | inl (joined, r, l) ↦ rw (q, l) (usage, joined, is, r, refl)
            | inr (x, r, l) ↦ rw (q, l) (inr (usage, x, is, r, refl))
          ]
    ]

    pub next_chunk-Stops :
        (c : CdnBandwidthCache F) {e : LoadError}
        → next_chunk fl fetch location target c ≡ err e
        → Stops c e
    next_chunk-Stops c q = subst (NextChunk c) q (next_chunk-NextChunk c)

    pub next_chunk-Chunks :
        (c : CdnBandwidthCache F) {c' t : CdnBandwidthCache F}
        → c.period_end < target
        → next_chunk fl fetch location target c ≡ ok c'
        → Chunks t c'
        → Chunks t c
    next_chunk-Chunks c {t = t} before q later =
        let (usage, joined, s, m, same) = subst (NextChunk c) q (next_chunk-NextChunk c) in
        chunk usage joined before s m (subst (Chunks t) same later)
