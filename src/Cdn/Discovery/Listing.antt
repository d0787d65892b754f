-- ===== src/Cdn/Discovery/Listing.antt =====
-- What a listing of the domains returns.
use qiniu_exporter.Base.{
  All, All-append, Bool, List, String, [], ap, append_assoc, arith, eq_iff, false, if◌then◌else◌,
  length, length-append, ltb, refl, str_eq, subst, suc, sym, true, zero, ℕ, ◌++◌, ◌+◌, ◌∙◌, ◌≡◌,
  ◌≤◌,
}
use qiniu_exporter.Base.Keys.{keys}
use qiniu_exporter.Base.Result.{>>=-eq-ok, Result, ok, ok-injective, refuse_if, ◌>>=◌}
use qiniu_exporter.Base.Sorting.{
  IsSorted, sort_by, sort_by-IsSorted, sort_by-Perm, text_le-total, text_le_trans,
}
use qiniu_exporter.Cdn.{CdnError, unexpected_response}
use qiniu_exporter.Cdn.Discovery.{
  Discovered, Domain, DomainDiscoveryPage, add_domains, domain_discovery_page_size, domain_le,
  domains_from, list_domains, max_domain_discovery_pages, max_domain_discovery_resources,
  next_domains,
}
use qiniu_exporter.Cdn.Discovery.Added.{
  AreDistinct, Enrolled, IsValidName, add_domains-Enrolled, enrolled, enrolled-append, keys_onto,
  keys_onto-append, keys_onto-length, next_domains-ok,
}
use mathlib.Core.List.{Perm}

abbrev pub first_page : Discovered
first_page = record { domains = []; seen_domains = []; seen_markers = []; marker = "" }

module _ (get_page : ℕ → String → Result CdnError DomainDiscoveryPage) where
  -- The pages from this number on, the first of them asked for with this marker and every other
  -- with the marker of the page before, hold these domains; the last has no marker.
  pub data Chain : ℕ → String → List Domain → Type 0 where
    last_page :
        {n : ℕ} {marker : String} (page : DomainDiscoveryPage)
        → get_page n marker ≡ ok page
        → page.next_marker ≡ ""
        → Chain n marker page.domains
    further_page :
        {n : ℕ} {marker : String} (page : DomainDiscoveryPage) (rest : List Domain)
        → get_page n marker ≡ ok page
        → Chain (suc n) page.next_marker rest
        → Chain n marker (page.domains ++ rest)

  -- What a listing returns from the page n on: of the domains found those that are enrolled, sorted
  -- by name; no two of the found have the same name up to case, and their names are valid.
  pub record IsListing (n : ℕ) (s : Discovered) (result : List Domain) : Type 0 where
    pub found : List Domain
    pub chain : Chain n s.marker found
    pub rearranged : Perm result (s.domains ++ enrolled found)
    pub sorted : IsSorted domain_le result
    pub distinct : AreDistinct (keys_onto s.seen_domains found)
    pub bounded : length s.seen_domains + length found ≤ max_domain_discovery_resources
    pub valid : All IsValidName found

  last-IsListing :
      (n : ℕ) (s : Discovered) (page : DomainDiscoveryPage) (out : List Domain × List (List ℕ))
      → get_page n s.marker ≡ ok page
      → page.next_marker ≡ ""
      → length s.seen_domains + length page.domains ≤ max_domain_discovery_resources
      → Enrolled s.domains s.seen_domains page.domains out
      → IsListing n s (sort_by domain_le out.0)
  last-IsListing n s page (domains, seen) got end fits (same, keys, distinct, valid) = record {
    found = page.domains;
    chain = last_page page got end;
    rearranged =
        subst (λ ds. Perm (sort_by domain_le domains) ds) same (sort_by-Perm domain_le domains);
    sorted =
        sort_by-IsSorted domain_le (λ a b. text_le-total a.name b.name)
          (λ a b c. text_le_trans a.name b.name c.name) domains;
    distinct = subst AreDistinct keys distinct;
    bounded = fits;
    valid = valid;
  }

  further-IsListing :
      (n : ℕ) (s s' : Discovered) (page : DomainDiscoveryPage) (domains : List Domain)
      (seen : List (List ℕ)) {result : List Domain}
      → get_page n s.marker ≡ ok page
      → Enrolled s.domains s.seen_domains page.domains (domains, seen)
      → s'.domains ≡ domains
      → s'.seen_domains ≡ seen
      → s'.marker ≡ page.next_marker
      → IsListing (suc n) s' result
      → IsListing n s result
  further-IsListing n s s' page domains seen {result = result} got (same, keys, distinct, valid) ed
        es em later =
      let found = later.found in
      let all_keys : keys_onto s'.seen_domains found
          ≡ keys_onto s.seen_domains (page.domains ++ found) =
        ap (λ (k : List (List ℕ)). keys_onto k found) (es ∙ keys)
        ∙ sym (keys_onto-append s.seen_domains page.domains found) in
      let all_domains : s'.domains ++ enrolled found
          ≡ s.domains ++ enrolled (page.domains ++ found) =
        ap (λ (ds : List Domain). ds ++ enrolled found) (ed ∙ same)
        ∙ append_assoc s.domains (enrolled page.domains) (enrolled found)
        ∙ ap (λ (ds : List Domain). s.domains ++ ds) (sym (enrolled-append page.domains found)) in
      record {
        found = page.domains ++ found;
        chain = further_page page found got (subst (λ m. Chain (suc n) m found) em later.chain);
        rearranged = subst (Perm result) all_domains later.rearranged;
        sorted = later.sorted;
        distinct = subst AreDistinct all_keys later.distinct;
        bounded = omega (
          arith,
          later.bounded,
          ap length (es ∙ keys),
          keys_onto-length s.seen_domains page.domains,
          length-append page.domains found,
        );
        valid = All-append IsValidName page.domains found valid later.valid;
      }

  turn-IsListing :
      (left n : ℕ) (s : Discovered) (page : DomainDiscoveryPage) (domains : List Domain)
      (seen : List (List ℕ)) (ends : Bool) {result : List Domain}
      → str_eq page.next_marker "" ≡ ends
      → get_page n s.marker ≡ ok page
      → length s.seen_domains + length page.domains ≤ max_domain_discovery_resources
      → Enrolled s.domains s.seen_domains page.domains (domains, seen)
      → ((s' : Discovered)
          → AreDistinct s'.seen_domains
          → domains_from get_page left (suc n) s' ≡ ok result
          → IsListing (suc n) s' result)
      → (if ends
          then ok (sort_by domain_le domains)
          else (next_domains s page domains seen >>= λ s'. domains_from get_page left (suc n) s'))
        ≡ ok result
      → IsListing n s result
  turn-IsListing left n s page domains seen true end got fits added later h =
      subst (IsListing n s) (ok-injective h) (
        last-IsListing n s page (domains, seen) got
          (ground (arith, end, eq_iff page.next_marker "")) fits added)
  turn-IsListing left n s page domains seen false end got fits (same, keys, distinct, valid) later
        h =
      let (s', e, h1) = >>=-eq-ok (next_domains s page domains seen) _ h in
      let q = next_domains-ok s page domains seen e in
      let es : s'.seen_domains ≡ seen = ap (λ (x : Discovered). x.seen_domains) q in
      further-IsListing n s s' page domains seen got (same, keys, distinct, valid)
        (ap (λ (x : Discovered). x.domains) q) es (ap (λ (x : Discovered). x.marker) q)
        (later s' (subst AreDistinct (sym es) distinct) h1)

  domains_from-IsListing :
      (left n : ℕ) (s : Discovered) {result : List Domain}
      → AreDistinct s.seen_domains
      → domains_from get_page left n s ≡ ok result
      → IsListing n s result
  unfolding domains_from
  domains_from-IsListing zero n s is h = cc
  domains_from-IsListing (suc left) n s {result = result} is h =
      let (page, got, h1) = >>=-eq-ok (get_page n s.marker) _ h in
      let (u2, e2, h2) =
        >>=-eq-ok
          (refuse_if (ltb domain_discovery_page_size (length page.domains)) unexpected_response) _
          h1 in
      let (u3, e3, h3) =
        >>=-eq-ok
          (refuse_if
            (ltb max_domain_discovery_resources (length s.seen_domains + length page.domains))
            unexpected_response)
          _ h2 in
      let ((domains, seen), e4, h4) =
        >>=-eq-ok (add_domains s.domains s.seen_domains page.domains) _ h3 in
      let added =
        add_domains-Enrolled s.domains s.seen_domains page.domains {result = (domains, seen)} is
          e4 in
      turn-IsListing left n s page domains seen (str_eq page.next_marker "") refl got (ground arith)
        added (λ s'. domains_from-IsListing left (suc n) s') h4

  -- A listing that succeeds returns, sorted by name, the domains of all pages from the first to the
  -- one without a marker, but for those of DCDN, each with its product filled in; there are at most
  -- 10000 domains on the pages, their names are valid, and no two are the same up to case.
  pub list_domains-IsListing :
      {result : List Domain} → list_domains get_page ≡ ok result → IsListing 1 first_page result
  unfolding list_domains
  list_domains-IsListing h = domains_from-IsListing max_domain_discovery_pages 1 first_page tt h
