-- ===== src/App/Isolation/Accounts.antt =====
-- What the isolation promises: no domain is forgotten.
use qiniu_exporter.App.Isolation.{Round, fail_all, isolate}
use qiniu_exporter.Base.{
  Bool, List, String, [], ap, arith, drop, false, inl, inr, length, length-drop, length-take, refl,
  suc, sym, take, take-append-drop, true, zero, ℕ, ◌++◌, ◌+◌, ◌/◌, ◌||◌, ◌∙◌, ◌∷◌, ◌≡◌, ◌≤◌,
}
use qiniu_exporter.Base.Keys.{contains, contains-append, insert, keys, keys-insert}
use qiniu_exporter.Base.Result.{Result, Result-cases}
use qiniu_exporter.Cdn.{CdnError, isolation_budget}

module _ {V : Type 0} where
  unfoldable pub in_batches : String → List (List String × V) → Bool
  in_batches d [] = false
  in_batches d ((ds, v) ∷ rest) = contains d ds || in_batches d rest

  -- The domain was fetched in a batch that succeeded, or has a failure to its name.
  unfoldable pub accounted : String → Round V → Bool
  unfolding in_batches
  accounted d r = in_batches d r.collected || contains d (keys r.failed)

  in_batches-append :
      (d : String) (xs ys : List (List String × V))
      → in_batches d (xs ++ ys) ≡ (in_batches d xs || in_batches d ys)
  unfolding in_batches
  in_batches-append d [] ys = refl
  in_batches-append d ((ds, v) ∷ xs) ys = ground (arith, in_batches-append d xs ys)

keys-fail_all :
    (d : String) (ds : List String) (e : CdnError) (m : List (String × CdnError))
    → contains d (keys (fail_all ds e m)) ≡ (contains d ds || contains d (keys m))
unfolding fail_all
keys-fail_all d [] e m = refl
keys-fail_all d (x ∷ xs) e m =
    ground (arith, keys-fail_all d xs e (insert x e m), keys-insert x d e m)

module _ {V : Type 0} (fetch : ℕ → List String → Result CdnError V) where
  pub isolate-accounted :
      (d : String) (fuel : ℕ) (current : List String) (r : Round V)
      → accounted d r ≡ true
      → accounted d (isolate fetch fuel current r) ≡ true
  unfolding isolate accounted in_batches
  isolate-accounted d zero current r h = h
  isolate-accounted d (suc fuel) current r h =
      let spent = record r { attempts = r.attempts + 1 } in
      let middle = length current / 2 in
      let left = isolate fetch fuel (take middle current) spent in
      elim (Result-cases (fetch r.attempts current)) [
        | inl (v, e) ↦ ground (
          arith,
          keys-fail_all d current isolation_budget r.failed,
          in_batches-append d r.collected ((current, v) ∷ []),
        )
        | inr (x, e) ↦ ground (
          arith,
          keys-fail_all d current isolation_budget r.failed,
          keys-fail_all d current x r.failed,
          isolate-accounted d fuel (take middle current) spent,
          isolate-accounted d fuel (drop middle current) left,
        )
      ]

  contains-halves :
      (d : String) (n : ℕ) (xs : List String)
      → contains d xs ≡ (contains d (take n xs) || contains d (drop n xs))
  contains-halves d n xs =
      ap (contains d) (sym (take-append-drop n xs)) ∙ contains-append d (take n xs) (drop n xs)

  isolate_from_accounts :
      (d : String) (fuel : ℕ) (current : List String) (r : Round V)
      → length current ≤ fuel
      → contains d current ≡ true
      → accounted d (isolate fetch fuel current r) ≡ true
  unfolding isolate accounted in_batches
  isolate_from_accounts d zero [] r le c = cc
  isolate_from_accounts d zero (x ∷ xs) r le c = absurd (omega arith)
  isolate_from_accounts d (suc fuel) current r le c =
      let spent = record r { attempts = r.attempts + 1 } in
      let middle = length current / 2 in
      let left = isolate fetch fuel (take middle current) spent in
      elim (Result-cases (fetch r.attempts current)) [
        | inl (v, e) ↦ ground (
          arith,
          keys-fail_all d current isolation_budget r.failed,
          in_batches-append d r.collected ((current, v) ∷ []),
        )
        | inr (x, e) ↦ ground (
          arith,
          keys-fail_all d current isolation_budget r.failed,
          keys-fail_all d current x r.failed,
          contains-halves d middle current,
          length-take middle current,
          length-drop middle current,
          isolate_from_accounts d fuel (take middle current) spent,
          isolate_from_accounts d fuel (drop middle current) left,
          isolate-accounted d fuel (drop middle current) left,
        )
      ]

  -- Every domain that a collection was asked for ends up either in a batch that was fetched with
  -- success or with a failure recorded under its name.
  pub isolate_accounts :
      (d : String) (current : List String) (r : Round V)
      → contains d current ≡ true
      → accounted d (isolate fetch (length current) current r) ≡ true
  isolate_accounts d current r c =
      isolate_from_accounts d (length current) current r (omega arith) c
