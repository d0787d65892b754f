-- ===== src/App/Isolation/Calls.antt =====
-- The fetches that the isolation makes, as the steps of a run.
use qiniu_exporter.App.Isolation.{
  Round, collect_active, collect_cdn_monitoring, fail_all, is_bad_domain, isolate,
  isolation_attempt_limit, mark_bad, skip_bad,
}
use qiniu_exporter.Base.{
  Bool-cases, List, String, [], arith, drop, inl, inr, leb, length, ltb, refl, suc, take, zero, ℕ,
  ◌&&◌, ◌++◌, ◌+◌, ◌/◌, ◌<◌, ◌∷◌, ◌≡◌, ◌≤◌, ◌⊎◌,
}
use qiniu_exporter.Base.Result.{Result, Result-cases, err, ok}
use qiniu_exporter.Cdn.{CdnError, isolation_budget}

module _ {V : Type 0} where
  -- What a fetch of some domains makes of the variables: it counts, and its result is kept, or its
  -- failure recorded, or left to the halves.
  abbrev pub Answered : List String → Round V → Result CdnError V → Round V → Type 0
  Answered current r (ok v) s =
      s ≡ record r { attempts = r.attempts + 1; collected = r.collected ++ (current, v) ∷ [] }
  Answered current r (err e) s =
      (s ≡ record r { attempts = r.attempts + 1 })
      ⊎ (s ≡ record r {
        attempts = r.attempts + 1;
        failed = fail_all current e r.failed;
        bad = mark_bad current e r.bad;
      })

  Answered-counts :
      (current : List String) (r : Round V) (x : Result CdnError V) (s : Round V)
      → Answered current r x s
      → s.attempts ≡ r.attempts + 1
  Answered-counts current r (ok v) s a = rw a refl
  Answered-counts current r (err e) s (inl a) = rw a refl
  Answered-counts current r (err e) s (inr a) = rw a refl

  module _ (fetch : ℕ → List String → Result CdnError V) where
    -- From r to t, with the fetches that are made on the way: a fetch is asked for these domains and
    -- answers as the source does after so many attempts, or domains fail without a fetch.
    pub data Run (t : Round V) : Round V → List (List String) → Type 0 where
      stops : Run t t []
      fetches :
          {r s : Round V} {calls : List (List String)} (current : List String)
          → r.attempts < isolation_attempt_limit
          → Answered current r (fetch r.attempts current) s
          → Run t s calls
          → Run t r (current ∷ calls)
      refuses :
          {r : Round V} {calls : List (List String)} (current : List String)
          → isolation_attempt_limit ≤ r.attempts
          → Run t (record r { failed = fail_all current isolation_budget r.failed }) calls
          → Run t r calls

    Run-append :
        {s t r : Round V} {xs ys : List (List String)}
        → Run s r xs
        → Run t s ys
        → Run t r (xs ++ ys)
    Run-append stops b = b
    Run-append (fetches current h a run) b = fetches current h a (Run-append run b)
    Run-append (refuses current h run) b = refuses current h (Run-append run b)

    -- Every call is counted, and none is made once the limit is reached.
    pub Run-counts :
        {t r : Round V} {calls : List (List String)}
        → Run t r calls
        → r.attempts ≤ isolation_attempt_limit
        → (t.attempts ≡ r.attempts + length calls) × (t.attempts ≤ isolation_attempt_limit)
    Run-counts stops h = (omega arith, h)
    Run-counts (refuses current h run) k = Run-counts run k
    Run-counts (fetches {r = r} {s = s} current h a run) k =
        let counted = Answered-counts current r (fetch r.attempts current) s a in
        let (n, le) = Run-counts run (omega arith) in (omega (arith, n), le)

    isolate-Run :
        (fuel : ℕ) (current : List String) (r : Round V)
        → (calls : List (List String)) × Run (isolate fetch fuel current r) r calls
    unfolding isolate
    isolate-Run zero current r = ([], stops)
    isolate-Run (suc fuel) current r =
        let spent = record r { attempts = r.attempts + 1 } in
        let middle = length current / 2 in
        let left = isolate fetch fuel (take middle current) spent in
        let (xs, first) = isolate-Run fuel (take middle current) spent in
        let (ys, second) = isolate-Run fuel (drop middle current) left in
        elim (Bool-cases (leb isolation_attempt_limit r.attempts)) [
          | inl full ↦ rw full ([], refuses current (ground arith) stops)
          | inr free ↦ elim (Result-cases (fetch r.attempts current)) [
            | inl (v, e) ↦
                rw (free, e) (current ∷ [], fetches current (ground arith) (rw e refl) stops)
            | inr (x, e) ↦ elim (Bool-cases (is_bad_domain x && ltb 1 (length current))) [
              | inl split ↦
                  rw (free, e, split)
                    (
                      current ∷ xs ++ ys,
                      fetches current (ground arith) (rw e (inl refl)) (Run-append first second),
                    )
              | inr whole ↦
                  rw (free, e, whole)
                    (current ∷ [], fetches current (ground arith) (rw e (inr refl)) stops)
            ]
          ]
        ]

    collect_active-Run :
        (active : List String) (r : Round V)
        → (calls : List (List String)) × Run (collect_active fetch active r) r calls
    unfolding collect_active
    collect_active-Run [] r = ([], stops)
    collect_active-Run (d ∷ ds) r = isolate-Run (length (d ∷ ds)) (d ∷ ds) r

    -- What the closure's variables hold before the first fetch: the known bad domains have failed.
    abbrev pub before_fetches : List String → List (String × CdnError) → Round V
    before_fetches domains bad = record {
      attempts = 0;
      collected = [];
      failed = (skip_bad bad domains []).1;
      bad = bad;
    }

    -- A monitoring collection is a run of fetches, each asked for some domains and answered by the
    -- source, of which there are at most sixteen, however the domains fail; its counter says how
    -- many there were.
    pub collect_cdn_monitoring-Run :
        (domains : List String) (bad : List (String × CdnError))
        → (calls : List (List String)) × Run
            (collect_cdn_monitoring fetch domains bad)
            (before_fetches domains bad)
            calls
          × ((collect_cdn_monitoring fetch domains bad).attempts ≡ length calls)
          × (length calls ≤ isolation_attempt_limit)
    unfolding collect_cdn_monitoring
    collect_cdn_monitoring-Run domains bad =
        let known = skip_bad bad domains [] in
        let start = before_fetches domains bad in
        let (calls, run) = collect_active-Run known.0 start in
        let (n, le) = Run-counts run (omega arith) in
        (calls, run, omega (arith, n), omega (arith, n, le))
