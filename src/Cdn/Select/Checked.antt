-- ===== src/Cdn/Select/Checked.antt =====
-- What the checks of `validateMonitoringResponse` establish.
use qiniu_exporter.Base.{
  All, List, Option, String, [], arith, eq_iff, false, get_elem?, get_elem?-lt, inl, inr, length,
  none, refl, some, ℕ, ◌+◌, ◌<◌, ◌∷◌, ◌≡◌, ◌≤◌, ◌⊎◌,
}
use qiniu_exporter.Base.Calendar.{Location}
use qiniu_exporter.Base.Calendar.Layouts.{monitoring_layout}
use qiniu_exporter.Base.Floats.{Floats}
use qiniu_exporter.Base.Keys.{contains, lookup}
use qiniu_exporter.Base.Result.{>>=-eq-ok, err, ok}
use qiniu_exporter.Cdn.{
  MonitoringRegionSeries, MonitoringResponse, check_business_code, five_minute_bucket,
  max_usage_domains, series_misaligned,
}
use qiniu_exporter.Cdn.Names.{validate_domains}
use qiniu_exporter.Cdn.Points.{latest_safe_index}
use qiniu_exporter.Cdn.Points.Choice.{IsSelection, latest_safe_index-IsSelection}
use qiniu_exporter.Cdn.Select.{
  fit_axis, fit_series, region_values, validate_monitoring_response, within_allowlist,
}
use qiniu_exporter.Cdn.Series.{
  optional_series_value, optional_series_value-ok, validate_optional_series, value_at,
}

-- The value of a region at an index: zero where the response leaves the domain out or its series is
-- empty, the series' own value otherwise.
abbrev pub ValueAt : {F : Type 0} → Floats F → List F → ℕ → F → Type 0
ValueAt fl series index v = ((series ≡ []) × (v ≡ fl.zero_f)) ⊎ (get_elem? series index ≡ some v)

abbrev pub RegionValues :
    {F : Type 0} → Floats F → Option (MonitoringRegionSeries F) → ℕ → F → F → Type 0
RegionValues fl none index china oversea = (china ≡ fl.zero_f) × (oversea ≡ fl.zero_f)
RegionValues fl (some s) index china oversea =
    ValueAt fl s.china index china × ValueAt fl s.oversea index oversea

module _ {F : Type 0} (fl : Floats F) where
  optional_series_value-ValueAt :
      (series : List F) (index : ℕ) {v : F}
      → optional_series_value fl series index ≡ ok v
      → ValueAt fl series index v
  unfolding optional_series_value
  optional_series_value-ValueAt [] index h = inl (refl, cc)
  optional_series_value-ValueAt (x ∷ xs) index h = inr (ground arith)

  pub region_values-RegionValues :
      (s : Option (MonitoringRegionSeries F)) (index : ℕ) {china oversea : F}
      → region_values fl s index ≡ ok (china, oversea)
      → RegionValues fl s index china oversea
  unfolding region_values
  region_values-RegionValues none index h = ground arith
  region_values-RegionValues (some s) index {china = china} {oversea = oversea} h =
      let (c, ce, h') = >>=-eq-ok (optional_series_value fl s.china index) _ h in
      let (o, oe, h'') = >>=-eq-ok (optional_series_value fl s.oversea index) _ h' in
      let same_c : c ≡ china = cc in
      let same_o : o ≡ oversea = cc in
      (
        rw (← same_c) (optional_series_value-ValueAt s.china index ce),
        rw (← same_o) (optional_series_value-ValueAt s.oversea index oe),
      )

  fit_axis-Fits :
      (domains : List String) (by_domain : List (String × MonitoringRegionSeries F)) (want : ℕ)
      → fit_axis fl domains by_domain want ≡ ok tt
      → All (λ d. fit_series fl (lookup d by_domain) want ≡ ok tt) domains
  unfolding fit_axis
  fit_axis-Fits [] by_domain want h = tt
  fit_axis-Fits (d ∷ ds) by_domain want h =
      let (u, first, rest) = >>=-eq-ok (fit_series fl (lookup d by_domain) want) _ h in
      (first, fit_axis-Fits ds by_domain want rest)

  pub region_values-ok :
      (s : Option (MonitoringRegionSeries F)) (want index : ℕ)
      → fit_series fl s want ≡ ok tt
      → index < want
      → (v : F × F) × (region_values fl s index ≡ ok v)
  unfolding region_values fit_series
  region_values-ok none want index fit lt = ((fl.zero_f, fl.zero_f), refl)
  region_values-ok (some s) want index fit lt =
      let (u, fit_c, fit_o) = >>=-eq-ok (validate_optional_series fl s.china want) _ fit in
      let (c, ce) = optional_series_value-ok fl s.china want index fit_c lt in
      let (o, oe) = optional_series_value-ok fl s.oversea want index fit_o lt in
      ((c, o), rw (ce, oe))

  pub record IsChecked (response : MonitoringResponse F) (domains : List String) (safe_before : ℕ)
      (location : Location) (index : ℕ) (starts : List ℕ) : Type 0 where
    pub code_ok : check_business_code response.code ≡ ok tt
    pub names_ok : validate_domains max_usage_domains domains ≡ ok tt
    pub allowed : within_allowlist domains response.by_domain ≡ ok tt
    pub selection : IsSelection monitoring_layout location safe_before response.times index starts
    pub fitting :
        All (λ d. fit_series fl (lookup d response.by_domain) (length starts) ≡ ok tt) domains

  pub validate_monitoring_response-IsChecked :
      (response : MonitoringResponse F) (domains : List String) (safe_before : ℕ)
      (location : Location) {index : ℕ} {starts : List ℕ}
      → validate_monitoring_response fl response domains safe_before (some location)
        ≡ ok (index, starts)
      → IsChecked response domains safe_before location index starts
  unfolding validate_monitoring_response
  validate_monitoring_response-IsChecked response domains safe_before location {index = index}
        {starts = starts} h =
      let (u1, e1, h1) = >>=-eq-ok (check_business_code response.code) _ h in
      let (u2, e2, h2) = >>=-eq-ok (validate_domains max_usage_domains domains) _ h1 in
      let (u3, e3, h3) = >>=-eq-ok (within_allowlist domains response.by_domain) _ h2 in
      let (p, e4, h4) =
        >>=-eq-ok (latest_safe_index response.times monitoring_layout safe_before (some location)) _
          h3 in
      let (u5, e5, h5) = >>=-eq-ok (fit_axis fl domains response.by_domain (length p.1)) _ h4 in
      let same_index : p.0 ≡ index = cc in
      let same_starts : p.1 ≡ starts = cc in
      rw (← same_index, ← same_starts)
        (record {
          code_ok = e1;
          names_ok = e2;
          allowed = e3;
          selection =
              latest_safe_index-IsSelection response.times monitoring_layout safe_before location
                e4;
          fitting = fit_axis-Fits domains response.by_domain (length p.1) e5;
        })

  pub IsChecked-start :
      {response : MonitoringResponse F} {domains : List String} {safe_before : ℕ}
      {location : Location} {index : ℕ} {starts : List ℕ}
      → IsChecked response domains safe_before location index starts
      → (start : ℕ) × (get_elem? starts index ≡ some start)
        × (value_at starts index ≡ ok start)
        × (index < length starts)
        × (start + five_minute_bucket ≤ safe_before)
  IsChecked-start {index = index} {starts = starts} c =
      let (t, e, le) = c.selection.chosen in
      (t, e, rw (e, value_at), get_elem?-lt starts index e, le)

  within_allowlist-cases :
      (expected : List String) (by_domain : List (String × MonitoringRegionSeries F))
      → (within_allowlist expected by_domain ≡ ok tt)
        ⊎ (within_allowlist expected by_domain ≡ err series_misaligned)
  unfolding within_allowlist
  within_allowlist-cases expected [] = inl refl
  within_allowlist-cases expected ((j, s) ∷ rest) =
      ground (arith, within_allowlist-cases expected rest)

  within_allowlist-contains :
      (expected : List String) (by_domain : List (String × MonitoringRegionSeries F)) (d : String)
      → within_allowlist expected by_domain ≡ ok tt
      → contains d expected ≡ false
      → lookup d by_domain ≡ none
  unfolding within_allowlist lookup
  within_allowlist-contains expected [] d h out = refl
  within_allowlist-contains expected ((j, s) ∷ rest) d h out =
      ground (arith, eq_iff j d, within_allowlist-contains expected rest d)

  -- A response that names a domain outside the configured ones is refused as a whole, whatever
  -- its other series hold (for a business code of 200 and an acceptable list of domains).
  pub validate_monitoring_response_foreign :
      (response : MonitoringResponse F) (domains : List String) (safe_before : ℕ)
      (location : Option Location) (d : String) (s : MonitoringRegionSeries F)
      → check_business_code response.code ≡ ok tt
      → validate_domains max_usage_domains domains ≡ ok tt
      → lookup d response.by_domain ≡ some s
      → contains d domains ≡ false
      → validate_monitoring_response fl response domains safe_before location
        ≡ err series_misaligned
  unfolding validate_monitoring_response
  validate_monitoring_response_foreign response domains safe_before location d s c v l out =
      elim (within_allowlist-cases domains response.by_domain) [
        | inl e ↦ ground (arith, within_allowlist-contains domains response.by_domain d e out)
        | inr e ↦ rw (c, v, e)
      ]
