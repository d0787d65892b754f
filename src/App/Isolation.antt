-- ===== src/App/Isolation.antt =====
-- The bounded isolation of bad domains: the recursive `collect` of `collectCDNMonitoring` and of
-- `fetchCDNMeteringBatches` in cdn.go. A fetch of some domains is a parameter, which may depend on
-- how many attempts were made before; it either succeeds, or fails with an error.
pub mod Accounts
pub mod Rounds
pub mod Calls
use qiniu_exporter.App.{batches}
use qiniu_exporter.Base.{
  Bool, List, String, [], drop, false, if◌then◌else◌, leb, length, ltb, none, some, suc, take, zero,
  ℕ, ◌&&◌, ◌++◌, ◌+◌, ◌/◌, ◌∷◌,
}
use qiniu_exporter.Base.Int.{pos}
use qiniu_exporter.Base.Keys.{insert, lookup}
use qiniu_exporter.Base.Result.{Result, err, ok}
use qiniu_exporter.Cdn.{CdnError, api_error, isolation_budget, same_ℤ}

abbrev pub isolation_attempt_limit : ℕ
isolation_attempt_limit = 16

abbrev pub is_bad_domain : CdnError → Bool
is_bad_domain (api_error code) = same_ℤ code (pos 400032)
is_bad_domain _ = false

-- The variables that the closure shares: the attempts, the domains of the successful fetches with
-- what they gave, the failures, and the domains found bad.
pub record Round (V : Type 0) : Type 0 where
  pub attempts : ℕ
  pub collected : List (List String × V)
  pub failed : List (String × CdnError)
  pub bad : List (String × CdnError)

unfoldable pub fail_all :
    List String → CdnError → List (String × CdnError) → List (String × CdnError)
fail_all [] e failed = failed
fail_all (d ∷ ds) e failed = fail_all ds e (insert d e failed)

-- `bad[current[0]] = err`, of a single domain.
unfoldable pub mark_bad :
    List String → CdnError → List (String × CdnError) → List (String × CdnError)
mark_bad (d ∷ []) e bad = if is_bad_domain e then insert d e bad else bad
mark_bad _ e bad = bad

-- The first loop of `collectCDNMonitoring`: the domains known to be bad fail at once, with the error they had.
unfoldable pub skip_bad :
    List (String × CdnError)
    → List String
    → List (String × CdnError)
    → List String × List (String × CdnError)
skip_bad bad [] failed = ([], failed)
skip_bad bad (d ∷ ds) failed = elim (lookup d bad) [
  | some e ↦ skip_bad bad ds (insert d e failed)
  | none ↦ let rest = skip_bad bad ds failed in (d ∷ rest.0, rest.1)
]

module _ {V : Type 0} (fetch : ℕ → List String → Result CdnError V) where
  -- The fuel bounds the depth of the recursion; the number of domains is enough, since a batch is
  -- split only if it has two domains at least.
  unfoldable pub isolate : ℕ → List String → Round V → Round V
  unfolding fail_all mark_bad
  isolate zero current r = r
  isolate (suc fuel) current r =
      let spent = record r { attempts = r.attempts + 1 } in
      let middle = length current / 2 in
      let halves = isolate fuel (drop middle current) (isolate fuel (take middle current) spent) in
      if leb isolation_attempt_limit r.attempts
      then record r { failed = fail_all current isolation_budget r.failed }
      else elim (fetch r.attempts current) [
        | ok v ↦ record spent { collected = spent.collected ++ (current, v) ∷ [] }
        | err e ↦
            (if is_bad_domain e && ltb 1 (length current) then halves else record spent {
              failed = fail_all current e spent.failed;
              bad = mark_bad current e spent.bad;
            })
      ]

  -- `if len(active) == 0 { return failed }` and `collect(active)`.
  unfoldable pub collect_active : List String → Round V → Round V
  unfolding isolate
  collect_active [] r = r
  collect_active (d ∷ ds) r = isolate (length (d ∷ ds)) (d ∷ ds) r

  -- `collectCDNMonitoring`.
  unfoldable pub collect_cdn_monitoring : List String → List (String × CdnError) → Round V
  unfolding collect_active skip_bad
  collect_cdn_monitoring domains bad =
      let known = skip_bad bad domains [] in
      collect_active known.0 (record { attempts = 0; collected = []; failed = known.1; bad = bad })

module _ {V : Type 0} (fetch : List String → ℕ → List String → Result CdnError V) where
  -- `fetchCDNMeteringBatches`: every batch has its own attempts; a fetch may depend on the batch
  -- that it is made for. Nothing is kept of the domains found bad.
  unfoldable pub meter : List (List String) → Round V → Round V
  unfolding isolate
  meter [] r = r
  meter (b ∷ bs) r = meter bs (isolate (fetch b) (length b) b (record r { attempts = 0 }))

  unfoldable pub fetch_cdn_metering_batches : List String → Round V
  unfolding meter
  fetch_cdn_metering_batches domains =
      meter (batches domains 50) (record { attempts = 0; collected = []; failed = []; bad = [] })
