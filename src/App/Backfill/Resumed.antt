-- ===== src/App/Backfill/Resumed.antt =====
-- What the filling of the bandwidth cache promises, also where it fails on the way.
use qiniu_exporter.App.Backfill.{
  CdnBandwidthCache, LoadError, as_load, backfill, candidate, chunk_end, fill,
  load_completed_month_bandwidth, next_chunk, segment,
}
use qiniu_exporter.App.Backfill.Caches.{IsCache, candidate-IsCache, merge-period_start}
use qiniu_exporter.App.Backfill.Chunks.{
  Begins, Chunks, Stops, candidate-Begins, filled, next_chunk-Chunks, next_chunk-Stops,
}
use qiniu_exporter.App.Merge.{merge_cdn_bandwidth_usage}
use qiniu_exporter.Base.{
  Bool-cases, List, Option, String, ap, arith, false, inl, inr, ltb, refl, some, subst, suc, zero,
  ℕ, ◌*◌, ◌+◌, ◌-◌, ◌/◌, ◌<◌, ◌∙◌, ◌≡◌, ◌≤◌, ◌⊎◌,
}
use qiniu_exporter.Base.Calendar.{Location}
use qiniu_exporter.Base.Floats.{Floats}
use qiniu_exporter.Base.Result.{>>=-eq-ok, Result, Result-cases, err, ok, ok-injective}
use qiniu_exporter.Base.Time.{day}
use qiniu_exporter.Cdn.{CdnError, MonitoringResponse}
use qiniu_exporter.Cdn.Usage.Bandwidth.{BandwidthUsageAggregate}

enough_days : (from target : ℕ) → target ≤ from + suc ((target - from) / day) * day
enough_days from target = omega arith

as_load-eq-ok : {A : Type 0} (r : Result CdnError A) {a : A} → as_load r ≡ ok a → r ≡ ok a
as_load-eq-ok (ok x) h = ap ok (ok-injective h)
as_load-eq-ok (err e) h = cc

module _ {F : Type 0} (fl : Floats F) where
  module _ (fetch : ℕ → ℕ → List String → ℕ → List String → Result CdnError (MonitoringResponse F))
      (location : Option Location) (target : ℕ) where
    -- From c the call went on to c' by whole chunks, and returned r: the whole period, or what it
    -- stopped at before its end.
    pub record IsResumed (c c' : CdnBandwidthCache F)
        (r : Option (Result LoadError (BandwidthUsageAggregate F))) : Type 0 where
      pub forward : c.period_end ≤ c'.period_end
      pub chunks : Chunks fl fetch location target c' c
      pub outcome :
          ((r ≡ some (ok c'.aggregate)) × (c'.period_end ≡ target))
          ⊎ ((e : LoadError) × (r ≡ some (err e))
              × (c'.period_end < target)
              × Stops fl fetch location target c' e)

  module _ (fetch : ℕ → ℕ → List String → ℕ → List String → Result CdnError (MonitoringResponse F))
      (location : Option Location) (month_start target : ℕ) (domains : List String) where
    next_chunk-IsCache :
        (c : CdnBandwidthCache F) {c' : CdnBandwidthCache F}
        → IsCache fl month_start target domains c
        → c.period_end < target
        → next_chunk fl fetch location target c ≡ ok c'
        → IsCache fl month_start target domains c'
          × ((c'.period_end ≡ target) ⊎ (c'.period_end ≡ c.period_end + backfill))
    unfolding next_chunk
    next_chunk-IsCache c {c' = c'} is before h =
        let (usage, q, h1) =
          >>=-eq-ok
            (segment fl fetch location c.domains c.period_end (chunk_end c.period_end target)) _
            h in
        let (joined, q', h2) =
          >>=-eq-ok (as_load (merge_cdn_bandwidth_usage fl c.aggregate usage)) _ h1 in
        subst
          (λ (x : CdnBandwidthCache F).
            IsCache fl month_start target domains x
            × ((x.period_end ≡ target) ⊎ (x.period_end ≡ c.period_end + backfill)))
          (ok-injective h2)
          (
            (record {
              of_month = is.of_month;
              of_domains = is.of_domains;
              from_start = ground (arith, is.from_start);
              in_period = ground arith;
              starts =
                  merge-period_start fl c.aggregate usage
                    (as_load-eq-ok (merge_cdn_bandwidth_usage fl c.aggregate usage) q')
                  ∙ is.starts;
            }),
            ground arith,
          )

    fill-IsResumed :
        (fuel : ℕ) (c : CdnBandwidthCache F)
        → IsCache fl month_start target domains c
        → target ≤ c.period_end + fuel * day
        → IsCache fl month_start target domains (fill fl fetch location fuel target c).0
          × IsResumed fetch location target c
              (fill fl fetch location fuel target c).0
              (fill fl fetch location fuel target c).1
    unfolding fill
    fill-IsResumed zero c is enough =
        let e : ltb c.period_end target ≡ false = ground arith in
        rw e (
          is,
          record {
            forward = omega arith;
            chunks = filled;
            outcome = inl (refl, omega (arith, is.in_period));
          },
        )
    fill-IsResumed (suc fuel) c is enough = elim (Bool-cases (ltb c.period_end target)) [
      | inr e ↦ rw e (
        is,
        record {
          forward = omega arith;
          chunks = filled;
          outcome = inl (refl, ground (arith, is.in_period));
        },
      )
      | inl e ↦
          let before : c.period_end < target = ground arith in
          elim (Result-cases (next_chunk fl fetch location target c)) [
            | inr (x, q) ↦
                rw (e, q)
                  (
                    is,
                    record {
                      forward = omega arith;
                      chunks = filled;
                      outcome =
                          inr (x, refl, before, next_chunk-Stops fl fetch location target c q);
                    },
                  )
            | inl (c', q) ↦
                let (is', ends) = next_chunk-IsCache c is before q in
                let (later, done) = fill-IsResumed fuel c' is' (ground (arith, is'.in_period)) in
                rw (e, q)
                  (
                    later,
                    record {
                      forward = ground (arith, done.forward);
                      chunks = next_chunk-Chunks fl fetch location target c before q done.chunks;
                      outcome = done.outcome;
                    },
                  )
          ]
    ]

    -- The call always ends with a result, for a month that starts by the target and a cache whose
    -- aggregate starts with its month. It goes on from the given cache, or, where that is of another
    -- month or of other domains or ends outside the period, from an empty one at the month's start.
    -- From there it takes chunks, each with the usage that was fetched from the end of the one before
    -- joined to what the cache holds, and never goes back. The cache it leaves is of this month and
    -- of these domains, ends within the period, and has an aggregate that starts with the month. The
    -- result is that aggregate where the cache is filled up to the target, or else the error of the
    -- next chunk, of which domains failed, or whose usage was refused or could not be joined, with the
    -- chunks before it kept for the next call.
    pub load_completed_month_bandwidth-IsResumed :
        (cache : CdnBandwidthCache F)
        → month_start ≤ target
        → cache.aggregate.period_start ≡ cache.month_start
        → (c : CdnBandwidthCache F) × (c' : CdnBandwidthCache F) × (r : Option
            (Result LoadError (BandwidthUsageAggregate F)))
          × (load_completed_month_bandwidth fl fetch location
                (some cache)
                month_start
                domains
                target
              ≡ (some c', r))
          × Begins fl cache month_start domains target c
          × IsCache fl month_start target domains c'
          × IsResumed fetch location target c c' r
    unfolding load_completed_month_bandwidth
    load_completed_month_bandwidth-IsResumed cache le start =
        let c = candidate fl cache month_start domains target in
        let fuel = suc ((target - c.period_end) / day) in
        let (is, done) =
          fill-IsResumed fuel c (candidate-IsCache fl month_start target domains cache le start)
            (enough_days c.period_end target) in
        (
          c,
          (fill fl fetch location fuel target c).0,
          (fill fl fetch location fuel target c).1,
          refl,
          candidate-Begins fl cache month_start domains target,
          is,
          done,
        )
