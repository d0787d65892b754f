-- ===== src/Cdn/Discovery/Added.antt =====
-- What the domains of one page add to a listing.
use qiniu_exporter.Base.{
  All, Bool-cases, List, [], append-nil, append_assoc, arith, false, if◌then◌else◌, inl, inr,
  length, refl, str_eq, subst, sym, ℕ, ◌++◌, ◌+◌, ◌==◌, ◌∙◌, ◌∷◌, ◌≡◌,
}
use qiniu_exporter.Base.Keys.{contains, keys}
use qiniu_exporter.Base.Result.{>>=-eq-ok, Result, err, ok, ok-injective, refuse_if}
use qiniu_exporter.Base.Texts.{has_key}
use qiniu_exporter.Cdn.{CdnError, unexpected_response}
use qiniu_exporter.Cdn.Discovery.{
  Discovered, Domain, DomainDiscoveryPage, add_domains, check_domain, enroll,
  max_domain_discovery_resources, name_key, next_domains, or_unexpected, validate_discovered_domain,
  validate_discovery_marker, validate_operating_state, validate_product, with_product,
}
use qiniu_exporter.Limiter.{new}

-- The domains that are enrolled, with their products.
abbrev pub enrolled : List Domain → List Domain
enrolled [] = []
enrolled (d ∷ ds) =
    let behind = enrolled ds in
    if str_eq (with_product d).product "dcdn" then behind else with_product d ∷ behind

-- The keys of the domains, the latest first, before those there are.
abbrev pub keys_onto : List (List ℕ) → List Domain → List (List ℕ)
keys_onto seen [] = seen
keys_onto seen (d ∷ ds) = keys_onto (name_key d ∷ seen) ds

-- No key stands twice.
abbrev pub AreDistinct : List (List ℕ) → Type 0
AreDistinct [] = Unit
AreDistinct (k ∷ ks) = (has_key k ks ≡ false) × AreDistinct ks

abbrev pub IsValidName : Domain → Type 0
IsValidName d = validate_discovered_domain d.name ≡ ok tt

pub keys_onto-append :
    (seen : List (List ℕ)) (xs ys : List Domain)
    → keys_onto seen (xs ++ ys) ≡ keys_onto (keys_onto seen xs) ys
keys_onto-append seen [] ys = refl
keys_onto-append seen (x ∷ xs) ys = keys_onto-append (name_key x ∷ seen) xs ys

pub enrolled-append : (xs ys : List Domain) → enrolled (xs ++ ys) ≡ enrolled xs ++ enrolled ys
enrolled-append [] ys = refl
enrolled-append (x ∷ xs) ys = ground (arith, enrolled-append xs ys)

pub keys_onto-length :
    (seen : List (List ℕ)) (ds : List Domain) → length (keys_onto seen ds) ≡ length seen + length ds
keys_onto-length seen [] = omega arith
keys_onto-length seen (d ∷ ds) = omega (arith, keys_onto-length (name_key d ∷ seen) ds)

or_unexpected-ok : (r : Result CdnError (Unit {0})) {u : Unit} → or_unexpected r ≡ ok u → r ≡ ok tt
or_unexpected-ok (ok tt) h = refl
or_unexpected-ok (err e) h = cc

check_domain-ok :
    (seen : List (List ℕ)) (d : Domain) {u : Unit}
    → check_domain seen d ≡ ok u
    → IsValidName d × (has_key (name_key d) seen ≡ false)
unfolding check_domain
check_domain-ok seen d h =
    let (u1, e1, h1) = >>=-eq-ok (or_unexpected (validate_discovered_domain d.name)) _ h in
    let (u2, e2, h2) =
      >>=-eq-ok (or_unexpected (validate_operating_state d.operating_state)) _ h1 in
    let (u3, e3, h3) = >>=-eq-ok (or_unexpected (validate_product d.product)) _ h2 in
    (or_unexpected-ok (validate_discovered_domain d.name) e1, ground arith)

enroll-eq :
    (domains : List Domain) (d : Domain) (ds : List Domain)
    → enroll domains (with_product d) ++ enrolled ds ≡ domains ++ enrolled (d ∷ ds)
enroll-eq domains d ds = elim (Bool-cases (str_eq (with_product d).product "dcdn")) [
  | inl e ↦ rw e refl
  | inr e ↦ rw e (append_assoc domains (with_product d ∷ []) (enrolled ds))
]

-- What a page's domains do to the variables of the loop.
abbrev pub Enrolled :
    List Domain → List (List ℕ) → List Domain → List Domain × List (List ℕ) → Type 0
Enrolled domains seen ds (out, seen') =
    (out ≡ domains ++ enrolled ds)
    × (seen' ≡ keys_onto seen ds)
    × AreDistinct seen'
    × All IsValidName ds

pub add_domains-Enrolled :
    (domains : List Domain) (seen : List (List ℕ)) (ds : List Domain)
    {result : List Domain × List (List ℕ)}
    → AreDistinct seen
    → add_domains domains seen ds ≡ ok result
    → Enrolled domains seen ds result
unfolding add_domains
add_domains-Enrolled domains seen [] is h =
    subst (Enrolled domains seen []) (ok-injective h) (sym (append-nil domains), refl, is, tt)
add_domains-Enrolled domains seen (d ∷ ds) {result = result} is h =
    let (u, e, h1) = >>=-eq-ok (check_domain seen d) _ h in
    let (valid, new) = check_domain-ok seen d e in
    let (same, keys, distinct, all_valid) =
      add_domains-Enrolled (enroll domains (with_product d)) (name_key d ∷ seen) ds
        {result = result} (new, is) h1 in
    (same ∙ enroll-eq domains d ds, keys, distinct, (valid, all_valid))

pub next_domains-ok :
    (s : Discovered) (page : DomainDiscoveryPage) (domains : List Domain) (seen : List (List ℕ))
    {s' : Discovered}
    → next_domains s page domains seen ≡ ok s'
    → s' ≡ record {
      domains = domains;
      seen_domains = seen;
      seen_markers = page.next_marker ∷ s.seen_markers;
      marker = page.next_marker;
    }
unfolding next_domains
next_domains-ok s page domains seen h =
    let (u1, e1, h1) = >>=-eq-ok (or_unexpected (validate_discovery_marker page.next_marker)) _ h in
    let (u2, e2, h2) = >>=-eq-ok (refuse_if (length page.domains == 0) unexpected_response) _ h1 in
    let (u3, e3, h3) =
      >>=-eq-ok (refuse_if (str_eq page.next_marker s.marker) unexpected_response) _ h2 in
    let (u4, e4, h4) =
      >>=-eq-ok (refuse_if (contains page.next_marker s.seen_markers) unexpected_response) _ h3 in
    let (u5, e5, h5) =
      >>=-eq-ok (refuse_if (length seen == max_domain_discovery_resources) unexpected_response) _
        h4 in
    sym (ok-injective h5)
