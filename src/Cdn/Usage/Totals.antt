-- ===== src/Cdn/Usage/Totals.antt =====
-- What the traffic aggregation promises of its sums.
use qiniu_exporter.Base.{
  All, All-append, Bool-cases, List, Option, String, [], ap, arith, false, inl, inr, refl, subst,
  sym, ℕ, ◌++◌, ◌||◌, ◌∙◌, ◌∷◌, ◌≡◌,
}
use qiniu_exporter.Base.Calendar.{Location}
use qiniu_exporter.Base.Floats.{Floats}
use qiniu_exporter.Base.Keys.{lookup}
use qiniu_exporter.Base.Result.{>>=-eq-ok, ok, ok-injective}
use qiniu_exporter.Cdn.{MonitoringResponse}
use qiniu_exporter.Cdn.Series.{add_usage_value}
use qiniu_exporter.Cdn.Usage.{Granularity}
use qiniu_exporter.Cdn.Usage.Batches.{
  UsageBatch, UsageBatchRange, domains_of, validate_usage_batches,
}
use qiniu_exporter.Cdn.Usage.Traffic.{
  DomainTrafficUsage, TrafficUsageAggregate, aggregate_traffic_usage, sum_domain,
  traffic_of_batches, traffic_of_domains,
}

module _ {F : Type 0} (fl : Floats F) where
  -- The total of the rows on top of a start value, added in their order.
  abbrev pub total_from : F → List (DomainTrafficUsage F) → F
  total_from account [] = account
  total_from account (r ∷ rs) = total_from (fl.plus account r.bytes) rs

  pub record IsRow (r : DomainTrafficUsage F) : Type 0 where
    pub bytes_sum : r.bytes ≡ fl.plus r.china_bytes r.oversea_bytes
    pub active_bytes : r.active ≡ fl.below fl.zero_f r.bytes
    pub finite : (fl.is_nan r.bytes || fl.is_inf r.bytes) ≡ false

  abbrev pub names : List (DomainTrafficUsage F) → List String
  names [] = []
  names (r ∷ rs) = r.domain ∷ names rs

  abbrev pub IsTotal : F → List String → List (DomainTrafficUsage F) × F → Type 0
  IsTotal account domains (rows, total) =
      (names rows ≡ domains) × (total ≡ total_from account rows) × All IsRow rows

  pub add_usage_value-plus :
      (a b : F) {c : F}
      → add_usage_value fl a b ≡ ok c
      → (c ≡ fl.plus a b) × ((fl.is_nan c || fl.is_inf c) ≡ false)
  unfolding add_usage_value
  add_usage_value-plus a b {c = c} h =
      elim (Bool-cases (fl.is_nan (fl.plus a b) || fl.is_inf (fl.plus a b))) [
        | inl bad ↦ absurd (ground arith)
        | inr good ↦
            let same : fl.plus a b ≡ c = ground arith in
            (ground arith, subst (λ x. (fl.is_nan x || fl.is_inf x) ≡ false) same good)
      ]

  names-append : (xs ys : List (DomainTrafficUsage F)) → names (xs ++ ys) ≡ names xs ++ names ys
  names-append [] ys = refl
  names-append (x ∷ xs) ys = ap (◌∷◌ x.domain) (names-append xs ys)

  total_from-append :
      (a : F) (xs ys : List (DomainTrafficUsage F))
      → total_from a (xs ++ ys) ≡ total_from (total_from a xs) ys
  total_from-append a [] ys = refl
  total_from-append a (x ∷ xs) ys = total_from-append (fl.plus a x.bytes) xs ys

  traffic_of_domains-IsTotal :
      (response : MonitoringResponse F) (range : UsageBatchRange) (account : F) (ds : List String)
      {result : List (DomainTrafficUsage F) × F}
      → traffic_of_domains fl response range account ds ≡ ok result
      → IsTotal account ds result
  unfolding traffic_of_domains
  traffic_of_domains-IsTotal response range account [] h =
      subst (IsTotal account []) (ok-injective h) (refl, refl, tt)
  traffic_of_domains-IsTotal response range account (d ∷ ds) h =
      let (p, e1, h1) = >>=-eq-ok (sum_domain fl (lookup d response.by_domain) range) _ h in
      let (b, e2, h2) = >>=-eq-ok (add_usage_value fl p.0 p.1) _ h1 in
      let (acc, e3, h3) = >>=-eq-ok (add_usage_value fl account b) _ h2 in
      let (q, e4, h4) = >>=-eq-ok (traffic_of_domains fl response range acc ds) _ h3 in
      let later = traffic_of_domains-IsTotal response range acc ds e4 in
      let sum = add_usage_value-plus p.0 p.1 e2 in
      let on = add_usage_value-plus account b e3 in
      subst (IsTotal account (d ∷ ds)) (ok-injective h4) (
        ap (◌∷◌ d) later.0,
        later.1 ∙ ap (λ x. total_from x q.0) on.0,
        (record { bytes_sum = sum.0; active_bytes = refl; finite = sum.1 }, later.2),
      )

  traffic_of_batches-IsTotal :
      (account : F) (batches : List (UsageBatch F)) (ranges : List UsageBatchRange)
      {result : List (DomainTrafficUsage F) × F}
      → traffic_of_batches fl account batches ranges ≡ ok result
      → IsTotal account (domains_of batches) result
  unfolding traffic_of_batches domains_of
  traffic_of_batches-IsTotal account [] ranges h =
      subst (IsTotal account []) (ok-injective h) (refl, refl, tt)
  traffic_of_batches-IsTotal account (b ∷ bs) [] h = cc
  traffic_of_batches-IsTotal account (b ∷ bs) (r ∷ rs) h =
      let (p, e1, h1) = >>=-eq-ok (traffic_of_domains fl b.response r account b.domains) _ h in
      let (q, e2, h2) = >>=-eq-ok (traffic_of_batches fl p.1 bs rs) _ h1 in
      let first = traffic_of_domains-IsTotal b.response r account b.domains e1 in
      let later = traffic_of_batches-IsTotal p.1 bs rs e2 in
      subst (IsTotal account (b.domains ++ domains_of bs)) (ok-injective h2) (
        names-append p.0 q.0 ∙ cc (first.0, later.0),
        later.1 ∙ ap (λ x. total_from x q.0) first.1 ∙ sym (total_from-append account p.0 q.0),
        All-append IsRow p.0 q.0 first.2 later.2,
      )

  -- The rows of a traffic aggregate are the domains of the batches in their order, each once for
  -- each place it has there; a row's bytes are the sum of its two regions, finite, and make it
  -- active exactly if they are above zero; the account's bytes are those of the rows added up in
  -- their order from zero, so the account never disagrees with its domains.
  pub aggregate_traffic_usage-IsTotal :
      (batches : List (UsageBatch F)) (g : Granularity) (period_start period_end : ℕ)
      (location : Option Location) {result : TrafficUsageAggregate F}
      → aggregate_traffic_usage fl batches g period_start period_end location ≡ ok result
      → IsTotal fl.zero_f (domains_of batches) (result.domains, result.account_bytes)
  unfolding aggregate_traffic_usage
  aggregate_traffic_usage-IsTotal batches g period_start period_end location h =
      let (v, e1, h1) =
        >>=-eq-ok (validate_usage_batches fl batches g period_start period_end location) _ h in
      let (q, e2, h2) = >>=-eq-ok (traffic_of_batches fl fl.zero_f batches v.ranges) _ h1 in
      subst (λ r. IsTotal fl.zero_f (domains_of batches) (r.domains, r.account_bytes))
        (ok-injective h2) (traffic_of_batches-IsTotal fl.zero_f batches v.ranges e2)
