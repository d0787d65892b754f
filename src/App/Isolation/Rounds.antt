-- ===== src/App/Isolation/Rounds.antt =====
-- What a whole collection promises: of the monitoring data, and of the metering data in batches.
use qiniu_exporter.App.{batches}
use qiniu_exporter.App.Isolation.{
  Round, collect_active, collect_cdn_monitoring, fetch_cdn_metering_batches, isolate, meter,
  skip_bad,
}
use qiniu_exporter.App.Isolation.Accounts.{accounted, isolate-accounted, isolate_accounts}
use qiniu_exporter.App.Split.{join, join-batches}
use qiniu_exporter.Base.{
  Bool-cases, List, Option-cases, String, [], ap, arith, inl, inr, length, refl, true, ℕ, ◌||◌, ◌∙◌,
  ◌∷◌, ◌≡◌,
}
use qiniu_exporter.Base.Keys.{contains, contains-append, insert, keys, keys-insert, lookup}
use qiniu_exporter.Base.Result.{Result}
use qiniu_exporter.Cdn.{CdnError}

skip_bad-keys :
    (d : String) (bad : List (String × CdnError)) (ds : List String)
    (failed : List (String × CdnError))
    → contains d (keys failed) ≡ true
    → contains d (keys (skip_bad bad ds failed).1) ≡ true
unfolding skip_bad
skip_bad-keys d bad [] failed h = h
skip_bad-keys d bad (x ∷ xs) failed h = elim (Option-cases (lookup x bad)) [
  | inl e ↦ ground (arith, skip_bad-keys d bad xs failed)
  | inr (v, e) ↦
      ground (arith, keys-insert x d v failed, skip_bad-keys d bad xs (insert x v failed))
]

skip_bad-accounts :
    (d : String) (bad : List (String × CdnError)) (ds : List String)
    (failed : List (String × CdnError))
    → (contains d ds || contains d (keys failed)) ≡ true
    → (contains d (skip_bad bad ds failed).0 || contains d (keys (skip_bad bad ds failed).1)) ≡ true
unfolding skip_bad
skip_bad-accounts d bad [] failed h = h
skip_bad-accounts d bad (x ∷ xs) failed h = elim (Option-cases (lookup x bad)) [
  | inl e ↦ ground (arith, skip_bad-accounts d bad xs failed, skip_bad-keys d bad xs failed)
  | inr (v, e) ↦
      ground (arith, keys-insert x d v failed, skip_bad-accounts d bad xs (insert x v failed))
]

module _ {V : Type 0} (fetch : ℕ → List String → Result CdnError V) where
  collect_active-accounts :
      (d : String) (active : List String) (r : Round V)
      → (contains d active || contains d (keys r.failed)) ≡ true
      → accounted d (collect_active fetch active r) ≡ true
  unfolding collect_active accounted
  collect_active-accounts d [] r h = ground arith
  collect_active-accounts d (x ∷ xs) r h = ground (
    arith,
    isolate_accounts fetch d (x ∷ xs) r,
    isolate-accounted fetch d (length (x ∷ xs)) (x ∷ xs) r,
  )

  -- Every domain of a monitoring collection is fetched with success or has a failure recorded under
  -- its name, also if it was known to be bad before.
  pub collect_cdn_monitoring_accounts :
      (d : String) (domains : List String) (bad : List (String × CdnError))
      → contains d domains ≡ true
      → accounted d (collect_cdn_monitoring fetch domains bad) ≡ true
  unfolding collect_cdn_monitoring
  collect_cdn_monitoring_accounts d domains bad c =
      let known = skip_bad bad domains [] in
      collect_active-accounts d known.0
        (record { attempts = 0; collected = []; failed = known.1; bad = bad })
        (skip_bad-accounts d bad domains [] (ground arith))

module _ {V : Type 0} (fetch : List String → ℕ → List String → Result CdnError V) where
  accounted_again :
      (d : String) (r : Round V) (n : ℕ) → accounted d (record r { attempts = n }) ≡ accounted d r
  unfolding accounted
  accounted_again d r n = refl

  meter-accounted :
      (d : String) (bs : List (List String)) (r : Round V)
      → accounted d r ≡ true
      → accounted d (meter fetch bs r) ≡ true
  unfolding meter
  meter-accounted d [] r h = h
  meter-accounted d (b ∷ bs) r h =
      meter-accounted d bs (isolate (fetch b) (length b) b (record r { attempts = 0 })) (
        isolate-accounted (fetch b) d (length b) b (record r { attempts = 0 })
          (accounted_again d r 0 ∙ h))

  meter_accounts :
      (d : String) (bs : List (List String)) (r : Round V)
      → contains d (join bs) ≡ true
      → accounted d (meter fetch bs r) ≡ true
  unfolding meter
  meter_accounts d [] r h = cc
  meter_accounts d (b ∷ bs) r h =
      let after = isolate (fetch b) (length b) b (record r { attempts = 0 }) in
      elim (Bool-cases (contains d b)) [
        | inl e ↦
            meter-accounted d bs after
              (isolate_accounts (fetch b) d b (record r { attempts = 0 }) e)
        | inr e ↦ meter_accounts d bs after (ground (arith, contains-append d b (join bs)))
      ]

  -- Every domain of a metering fetch, whatever the number of its batches, is fetched with success or
  -- has a failure recorded under its name.
  pub fetch_cdn_metering_batches_accounts :
      (d : String) (domains : List String)
      → contains d domains ≡ true
      → accounted d (fetch_cdn_metering_batches fetch domains) ≡ true
  unfolding fetch_cdn_metering_batches
  fetch_cdn_metering_batches_accounts d domains c =
      meter_accounts d (batches domains 50)
        (record { attempts = 0; collected = []; failed = []; bad = [] })
        (ap (contains d) (join-batches domains 50 (omega arith)).0 ∙ c)
