-- ===== src/Cdn/Series.antt =====
-- The checks on value series in transform.go and usage.go, and indexing.
use qiniu_exporter.Base.{
  All, Bool, List, [], arith, false, get_elem?, get_elem?-some, if◌then◌else◌, length, none, not,
  refl, some, ℕ, ◌<◌, ◌==◌, ◌||◌, ◌∷◌, ◌≡◌,
}
use qiniu_exporter.Base.Floats.{Floats}
use qiniu_exporter.Base.Result.{Result, err, ok, refuse_if, ◌>>◌}
use qiniu_exporter.Cdn.{CdnError, index_panic, invalid_value, series_misaligned}

-- Go's `xs[i]`: out of range it panics.
abbrev pub value_at : {A : Type 0} → List A → ℕ → Result CdnError A
value_at xs i = elim (get_elem? xs i) [ none ↦ err index_panic | some v ↦ ok v ]

module _ {F : Type 0} (fl : Floats F) where
  unfoldable pub bad_value : F → Bool
  bad_value v = fl.below v fl.zero_f || fl.is_nan v || fl.is_inf v

  unfoldable pub validate_values : List F → Result CdnError (Unit {0})
  unfolding bad_value
  validate_values [] = ok tt
  validate_values (v ∷ vs) =
      let rest = validate_values vs in refuse_if (bad_value v) invalid_value >> rest

  unfoldable pub validate_series : List F → ℕ → Result CdnError (Unit {0})
  unfolding validate_values
  validate_series values want = do
    refuse_if (not (length values == want)) series_misaligned
    validate_values values

  unfoldable pub validate_optional_series : List F → ℕ → Result CdnError (Unit {0})
  unfolding validate_series
  validate_optional_series values want =
      if length values == 0 then ok tt else validate_series values want

  unfoldable pub optional_series_value : List F → ℕ → Result CdnError F
  optional_series_value [] index = ok fl.zero_f
  optional_series_value (v ∷ vs) index = value_at (v ∷ vs) index

  unfoldable pub add_usage_value : F → F → Result CdnError F
  add_usage_value left right =
      let result = fl.plus left right in
      if fl.is_nan result || fl.is_inf result then err invalid_value else ok result

  -- A series that a check has passed: as many values as points, none of them bad, or none at all.
  pub record IsSeries (values : List F) (want : ℕ) : Type 0 where
    pub aligned : length values ≡ want
    pub good : All (λ v. bad_value v ≡ false) values

  pub validate_values-good :
      (vs : List F) → validate_values vs ≡ ok tt → All (λ v. bad_value v ≡ false) vs
  unfolding validate_values
  validate_values-good [] h = tt
  validate_values-good (v ∷ vs) h = ground (arith, validate_values-good vs)

  pub validate_series-IsSeries :
      (values : List F) (want : ℕ) → validate_series values want ≡ ok tt → IsSeries values want
  unfolding validate_series
  validate_series-IsSeries values want h = ground (arith, validate_values-good values)

  -- A value at an index of the axis can be read from a series that passed the check.
  pub optional_series_value-ok :
      (values : List F) (want index : ℕ)
      → validate_optional_series values want ≡ ok tt
      → index < want
      → (v : F) × (optional_series_value values index ≡ ok v)
  unfolding optional_series_value validate_optional_series
  optional_series_value-ok [] want index h k = (fl.zero_f, refl)
  optional_series_value-ok (v ∷ vs) want index h k =
      let s = validate_series-IsSeries (v ∷ vs) want (ground arith) in
      let (x, e) = get_elem?-some (v ∷ vs) index (omega (arith, s.aligned)) in (x, ground arith)
