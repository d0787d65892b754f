-- ===== src/App/Merge/Rows.antt =====
-- The rows of the joined traffic of two periods.
use qiniu_exporter.App.Merge.{add_finite_cdn_usage, merge_traffic_rows}
use qiniu_exporter.Base.{
  List, [], ap, arith, eq_iff, false, length, not, refl, str_eq, subst, ◌||◌, ◌∙◌, ◌∷◌, ◌≡◌,
}
use qiniu_exporter.Base.Floats.{Floats}
use qiniu_exporter.Base.Result.{>>=-eq-ok, ok, ok-injective, refuse_if}
use qiniu_exporter.Cdn.{series_misaligned}
use qiniu_exporter.Cdn.Series.{add_usage_value}
use qiniu_exporter.Cdn.Usage.Totals.{IsTotal, add_usage_value-plus, names, total_from}
use qiniu_exporter.Cdn.Usage.Traffic.{DomainTrafficUsage}

module _ {F : Type 0} (fl : Floats F) where
  add_finite-plus :
      (a b : F) {c : F}
      → add_finite_cdn_usage fl a b ≡ ok c
      → (c ≡ fl.plus a b) × ((fl.is_nan c || fl.is_inf c) ≡ false)
  unfolding add_finite_cdn_usage add_usage_value
  add_finite-plus a b h = add_usage_value-plus fl a b h

  -- Each row adds up, region by region, the rows of its domain in the two periods.
  abbrev pub JoinedRows :
      List (DomainTrafficUsage F)
      → List (DomainTrafficUsage F)
      → List (DomainTrafficUsage F)
      → Type 0
  JoinedRows [] [] [] = Unit
  JoinedRows (p ∷ prior) (t ∷ today) (r ∷ rows) =
      (p.domain ≡ t.domain)
      × (r.domain ≡ t.domain)
      × (r.china_bytes ≡ fl.plus p.china_bytes t.china_bytes)
      × (r.oversea_bytes ≡ fl.plus p.oversea_bytes t.oversea_bytes)
      × JoinedRows prior today rows
  JoinedRows _ _ _ = ⊥

  pub merge_traffic_rows-IsTotal :
      (account : F) (prior today : List (DomainTrafficUsage F))
      {result : List (DomainTrafficUsage F) × F}
      → length prior ≡ length today
      → merge_traffic_rows fl account prior today ≡ ok result
      → (names fl prior ≡ names fl today)
        × JoinedRows prior today result.0
        × IsTotal fl account (names fl today) result
  unfolding merge_traffic_rows
  merge_traffic_rows-IsTotal account [] [] same h =
      let (joined, total) =
        subst
          (λ (r : List (DomainTrafficUsage F) × F). JoinedRows [] [] r.0 × IsTotal fl account [] r)
          (ok-injective h) (tt, (refl, refl, tt)) in
      (refl, joined, total)
  merge_traffic_rows-IsTotal account (p ∷ prior) [] same h = absurd (omega arith)
  merge_traffic_rows-IsTotal account [] (t ∷ today) same h = absurd (omega arith)
  merge_traffic_rows-IsTotal account (p ∷ prior) (t ∷ today) same h =
      let (u, e0, h0) =
        >>=-eq-ok (refuse_if (not (str_eq p.domain t.domain)) series_misaligned) _ h in
      let (china, e1, h1) = >>=-eq-ok (add_finite_cdn_usage fl p.china_bytes t.china_bytes) _ h0 in
      let (oversea, e2, h2) =
        >>=-eq-ok (add_finite_cdn_usage fl p.oversea_bytes t.oversea_bytes) _ h1 in
      let (bytes, e3, h3) = >>=-eq-ok (add_finite_cdn_usage fl china oversea) _ h2 in
      let (account', e4, h4) = >>=-eq-ok (add_finite_cdn_usage fl account bytes) _ h3 in
      let ((rows, total), e5, h5) = >>=-eq-ok (merge_traffic_rows fl account' prior today) _ h4 in
      let named : p.domain ≡ t.domain = ground (arith, eq_iff p.domain t.domain) in
      let (others, joined, (ns, sum, rs)) =
        merge_traffic_rows-IsTotal account' prior today {result = (rows, total)} (omega arith) e5 in
      let (b, fine) = add_finite-plus china oversea e3 in
      let (all_joined, total_of) =
        subst
          (λ (r : List (DomainTrafficUsage F) × F).
            JoinedRows (p ∷ prior) (t ∷ today) r.0
            × IsTotal fl account (t.domain ∷ names fl today) r)
          (ok-injective h5)
          (
            (
              named,
              refl,
              (add_finite-plus p.china_bytes t.china_bytes e1).0,
              (add_finite-plus p.oversea_bytes t.oversea_bytes e2).0,
              joined,
            ),
            (
              ap (◌∷◌ t.domain) ns,
              sum ∙ ap (λ a. total_from fl a rows) (add_finite-plus account bytes e4).0,
              ((record { bytes_sum = b; active_bytes = refl; finite = fine }), rs),
            ),
          ) in
      (cc (named, others), all_joined, total_of)
