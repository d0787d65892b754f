-- ===== src/Cdn/Names.antt =====
-- The checks on names in client.go and on the identity of an output in transform.go.
use qiniu_exporter.Base.{
  All, All-imp, Bool, List, String, [], arith, eq_iff, false, leb, length, ltb, none, refl, some,
  str_eq, ℕ, ◌*◌, ◌<◌, ◌==◌, ◌||◌, ◌∷◌, ◌≡◌, ◌≤◌,
}
use qiniu_exporter.Base.Calendar.Layouts.{date_layout, parse_in_location}
use qiniu_exporter.Base.Keys.{contains}
use qiniu_exporter.Base.Result.{Result, err, ok, refuse_if, ◌>>◌}
use qiniu_exporter.Base.Sorting.{codes}
use qiniu_exporter.Base.Texts.{has_outer_space}
use qiniu_exporter.Base.Time.{day, since}
use qiniu_exporter.Cdn.{CdnError, invalid_input, max_usage_domains}

unfoldable pub contains_control : List ℕ → Bool
contains_control [] = false
contains_control (c ∷ s) = ltb c 32 || c == 127 || contains_control s

unfoldable pub contains_code : ℕ → List ℕ → Bool
contains_code d [] = false
contains_code d (c ∷ s) = c == d || contains_code d s

-- `validateDomain(domain, true)`; every call of the package rejects the semicolon.
unfoldable pub validate_domain : String → Result CdnError (Unit {0})
unfolding has_outer_space contains_control contains_code
validate_domain domain = do
  refuse_if (str_eq domain "" || has_outer_space (codes domain) || contains_control (codes domain))
      invalid_input
  refuse_if (contains_code b';' (codes domain)) invalid_input

-- The loop of `validateUsageDomains`, `validateTopIPQuery` and `validateMonitoringResponse` over the
-- names seen so far.
unfoldable pub validate_names : List String → List String → Result CdnError (Unit {0})
unfolding validate_domain
validate_names seen [] = ok tt
validate_names seen (d ∷ ds) =
    let rest = validate_names (d ∷ seen) ds in
    (validate_domain d >> refuse_if (contains d seen) invalid_input) >> rest

unfoldable pub validate_domains : ℕ → List String → Result CdnError (Unit {0})
unfolding validate_names
validate_domains limit domains = do
  refuse_if (length domains == 0 || ltb limit (length domains)) invalid_input
  validate_names [] domains

unfoldable pub validate_usage_domains : List String → Result CdnError (Unit {0})
unfolding validate_domains
validate_usage_domains domains = validate_domains max_usage_domains domains

unfoldable pub validate_output_identity : String → String → Result CdnError (Unit {0})
unfolding validate_domain
validate_output_identity domain region = do
  validate_domain domain
  refuse_if (str_eq region "" || has_outer_space (codes region) || contains_control (codes region))
      invalid_input

-- `validateDateRange`: dates in UTC.
unfoldable pub validate_date_range : String → String → ℕ → Result CdnError (Unit {0})
validate_date_range start_text end_text max_inclusive_days =
    elim (parse_in_location date_layout (record { offset = 0 }) start_text) [
      | none ↦ err invalid_input
      | some start ↦ elim (parse_in_location date_layout (record { offset = 0 }) end_text) [
        | none ↦ err invalid_input
        | some end ↦ (do
          refuse_if (ltb end start) invalid_input
          refuse_if (leb (max_inclusive_days * day) (since end start)) invalid_input)
      ]
    ]

-- No name twice.
abbrev pub IsDistinct : List String → Type 0
IsDistinct [] = Unit
IsDistinct (d ∷ ds) = (contains d ds ≡ false) × IsDistinct ds

fresh-contains :
    (d : String) (seen ds : List String)
    → All (λ x. (contains x (d ∷ seen) ≡ false) × (validate_domain x ≡ ok tt)) ds
    → (contains d ds ≡ false)
      × All (λ x. (contains x seen ≡ false) × (validate_domain x ≡ ok tt)) ds
fresh-contains d seen [] h = (refl, tt)
fresh-contains d seen (x ∷ xs) (p, h) =
    ground (arith, eq_iff d x, eq_iff x d, fresh-contains d seen xs h)

validate_names-IsDistinct :
    (seen ds : List String)
    → validate_names seen ds ≡ ok tt
    → IsDistinct ds × All (λ d. (contains d seen ≡ false) × (validate_domain d ≡ ok tt)) ds
unfolding validate_names
validate_names-IsDistinct seen [] h = (tt, tt)
validate_names-IsDistinct seen (d ∷ ds) h =
    ground (arith, validate_names-IsDistinct (d ∷ seen) ds, fresh-contains d seen ds)

-- A list of names is accepted only within its limit, with every name valid and none twice.
pub validate_domains-IsDistinct :
    (limit : ℕ) (domains : List String)
    → validate_domains limit domains ≡ ok tt
    → (0 < length domains)
      × (length domains ≤ limit)
      × IsDistinct domains
      × All (λ d. validate_domain d ≡ ok tt) domains
unfolding validate_domains
validate_domains-IsDistinct limit domains h =
    let passed = validate_names-IsDistinct [] domains (ground arith) in
    (ground arith, ground arith, passed.0, All-imp (λ d p. p.1) domains passed.1)
