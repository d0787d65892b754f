-- ===== src/Cdn/Status/Keys.antt =====
-- What the loop over the status codes accepts.
use qiniu_exporter.Base.{
  Bool-cases, List, Option, String, [], arith, eq_iff, inl, inr, length, some, str_eq, subst, true,
  ℕ, ◌∷◌, ◌≡◌,
}
use qiniu_exporter.Base.Calendar.{Location}
use qiniu_exporter.Base.Calendar.Layouts.{analytics_layout}
use qiniu_exporter.Base.Floats.{Floats}
use qiniu_exporter.Base.Keys.{lookup}
use qiniu_exporter.Base.Result.{>>=-eq-ok, Result, err, ok, or_fail, or_fail-eq-ok, refuse_if}
use qiniu_exporter.Base.Sorting.{codes}
use qiniu_exporter.Cdn.{CdnError, check_business_code, unexpected_response}
use qiniu_exporter.Cdn.Names.{validate_output_identity}
use qiniu_exporter.Cdn.Points.{latest_safe_index}
use qiniu_exporter.Cdn.Select.{StatusCodeRateSample}
use qiniu_exporter.Cdn.Series.{validate_series}
use qiniu_exporter.Cdn.Status.{
  Classes, KeyKind, StatusCodeResponse, aggregate, exact, has_class, key_kind, mixed, note,
  scan_codes, select_latest_safe_status_code_rates,
}

module _ {F : Type 0} (fl : Floats F) where
  abbrev Keeps : Classes → Result CdnError (Classes × List String) → Type 0
  Keeps before (err e) = Unit
  Keeps before (ok (seen, ks)) =
      (a : ℕ)
      → (has_class before.aggregated a ≡ true → has_class seen.aggregated a ≡ true)
        × (has_class before.exact_classes a ≡ true → has_class seen.exact_classes a ≡ true)

  note-Keeps :
      (kind : KeyKind) (before : Classes) (a : ℕ)
      → (has_class before.aggregated a ≡ true → has_class (note kind before).aggregated a ≡ true)
        × (has_class before.exact_classes a ≡ true
            → has_class (note kind before).exact_classes a ≡ true)
  unfolding has_class
  note-Keeps (aggregate b) before a = (λ h. ground arith, λ h. h)
  note-Keeps (exact b) before a = (λ h. h, λ h. ground arith)

  -- A successful scan goes step by step.
  scan_codes_step :
      (want : ℕ) (classes : Classes) (code : String) (values : List F)
      (rest : List (String × List F)) {seen : Classes} {ks : List String}
      → scan_codes fl want classes ((code, values) ∷ rest) ≡ ok (seen, ks)
      → (kind : KeyKind) × (ks' : List String) × (key_kind (codes code) ≡ some kind)
        × (validate_series fl values want ≡ ok tt)
        × (scan_codes fl want (note kind classes) rest ≡ ok (seen, ks'))
        × (ks ≡ code ∷ ks')
  unfolding scan_codes
  scan_codes_step want classes code values rest h =
      let (kind, e, h1) = >>=-eq-ok (or_fail (key_kind (codes code)) unexpected_response) _ h in
      let (u, e1, h2) = >>=-eq-ok (validate_series fl values want) _ h1 in
      let (p, e2, h3) = >>=-eq-ok (scan_codes fl want (note kind classes) rest) _ h2 in
      (
        kind,
        p.1,
        or_fail-eq-ok (key_kind (codes code)) unexpected_response e,
        e1,
        ground arith,
        ground arith,
      )

  scan_codes-Keeps :
      (want : ℕ) (classes : Classes) (series : List (String × List F)) {seen : Classes}
      {ks : List String} (a : ℕ)
      → scan_codes fl want classes series ≡ ok (seen, ks)
      → (has_class classes.aggregated a ≡ true → has_class seen.aggregated a ≡ true)
        × (has_class classes.exact_classes a ≡ true → has_class seen.exact_classes a ≡ true)
  scan_codes-Keeps want classes [] {seen = seen} a h =
      let same : classes ≡ seen = unfold scan_codes in ground arith in
      (λ g. rw (← same) g, λ g. rw (← same) g)
  scan_codes-Keeps want classes ((code, values) ∷ rest) a h =
      let (kind, ks', e, v, h', q) = scan_codes_step want classes code values rest h in
      let later = scan_codes-Keeps want (note kind classes) rest a h' in
      let now = note-Keeps kind classes a in (λ g. later.0 (now.0 g), λ g. later.1 (now.1 g))

  scan_codes-aggregate :
      (want : ℕ) (classes : Classes) (series : List (String × List F)) {seen : Classes}
      {ks : List String} (c : String) {v : List F} (a : ℕ)
      → scan_codes fl want classes series ≡ ok (seen, ks)
      → lookup c series ≡ some v
      → (key_kind (codes c) ≡ some (aggregate a) → has_class seen.aggregated a ≡ true)
        × (key_kind (codes c) ≡ some (exact a) → has_class seen.exact_classes a ≡ true)
  unfolding lookup
  scan_codes-aggregate want classes [] c a h l = cc
  scan_codes-aggregate want classes ((code, values) ∷ rest) c {v = v} a h l =
      let (kind, ks', e, s, h', q) = scan_codes_step want classes code values rest h in
      let kept = scan_codes-Keeps want (note kind classes) rest a h' in
      elim (Bool-cases (str_eq code c)) [
        | inl same ↦
            let code_is : code ≡ c = (eq_iff code c).0 same in
            let kind_of : key_kind (codes c) ≡ some kind =
              subst (λ k. key_kind (codes k) ≡ some kind) code_is e in
            (
              λ g.
                  let k : kind ≡ aggregate a = cc in
                  kept.0 (rw k (unfold has_class in ground arith)),
              λ g. let k : kind ≡ exact a = cc in kept.1 (rw k (unfold has_class in ground arith)),
            )
        | inr distinct ↦
            scan_codes-aggregate want (note kind classes) rest c {v = v} a h' (rw distinct at l)
      ]

  has_class-mixed :
      (xs ys : List ℕ) (a : ℕ) → has_class xs a ≡ true → has_class ys a ≡ true → mixed xs ys ≡ true
  unfolding has_class mixed
  has_class-mixed [] ys a h k = cc
  has_class-mixed (x ∷ xs) ys a h k = ground (arith, has_class-mixed xs ys a)

  -- The selector returns no rates for a response that reports a class both as a whole, such as 4xx,
  -- and by one of its single codes, such as 404, wherever the two keys stand among the others: no
  -- response is counted twice.
  pub select_latest_safe_status_code_rates-unmixed :
      (response : StatusCodeResponse F) (domain region : String) (safe_before : ℕ)
      (location : Option Location) (series : List (String × List F)) (c c' : String) (a : ℕ)
      {v v' : List F}
      → response.codes_data ≡ some series
      → lookup c series ≡ some v
      → lookup c' series ≡ some v'
      → key_kind (codes c) ≡ some (aggregate a)
      → key_kind (codes c') ≡ some (exact a)
      → ¬ (
          (out : List (StatusCodeRateSample F)) × (select_latest_safe_status_code_rates fl response
              domain region safe_before location
            ≡ ok out))
  unfolding select_latest_safe_status_code_rates
  select_latest_safe_status_code_rates-unmixed response domain region safe_before location series c
        c' a {v = v} {v' = v'} s l l' k k' (out, h) =
      let (u1, e1, h1) = >>=-eq-ok (check_business_code response.code) _ h in
      let (u2, e2, h2) = >>=-eq-ok (validate_output_identity domain region) _ h1 in
      let (axis, e3, h3) =
        >>=-eq-ok (latest_safe_index response.points analytics_layout safe_before location) _ h2 in
      let (p, e4, h4) =
        >>=-eq-ok
          (scan_codes fl (length axis.1) (record { aggregated = []; exact_classes = [] }) series) _
          (rw s at h3) in
      let (u5, e5, h5) =
        >>=-eq-ok (refuse_if (mixed p.0.aggregated p.0.exact_classes) unexpected_response) _ h4 in
      ground (
        arith,
        has_class-mixed p.0.aggregated p.0.exact_classes a,
        (scan_codes-aggregate _ _ series c {v = v} a e4 l).0 k,
        (scan_codes-aggregate _ _ series c' {v = v'} a e4 l').1 k',
      )
