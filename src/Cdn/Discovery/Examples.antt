-- ===== src/Cdn/Discovery/Examples.antt =====
-- Runs of the domain listing.
use qiniu_exporter.Base.{List, String, [], if◌then◌else◌, refl, ℕ, ◌==◌, ◌∷◌, ◌≡◌}
use qiniu_exporter.Base.Result.{Result, err, ok}
use qiniu_exporter.Base.Sorting.{codes_le, insert_by, sort_by, text_le}
use qiniu_exporter.Base.Texts.{
  any_code, byte_length, has_key, has_outer_space, last_is_space, same_codes,
}
use qiniu_exporter.Cdn.{CdnError, invalid_input, unexpected_response}
use qiniu_exporter.Cdn.Discovery.{
  Domain, DomainDiscoveryPage, add_domains, any_label, bad_domain_label, check_domain, domains_from,
  ends_with_dash, list_domains, lower, next_domains, split_dots, validate_discovered_domain,
  validate_discovery_marker, validate_operating_state, validate_product,
}
use qiniu_exporter.Cdn.Discovery.Listing.{IsListing, first_page, list_domains-IsListing}
use qiniu_exporter.Cdn.Names.{contains_code, contains_control, validate_domain}

abbrev domain_of : String → String → Domain
domain_of name product = record { name = name; operating_state = "success"; product = product }

abbrev two_pages : ℕ → String → Result CdnError DomainDiscoveryPage
two_pages n marker =
    if n == 1
    then ok (record {
      next_marker = "more";
      domains = domain_of "www.example.com" "" ∷ domain_of "live.example.com" "dcdn" ∷ [];
    })
    else ok (record { next_marker = ""; domains = domain_of ".Example.org" "cdn" ∷ [] })

abbrev listed : List Domain
listed = domain_of ".Example.org" "cdn" ∷ domain_of "www.example.com" "cdn" ∷ []

list_domains-IsListing_example : IsListing two_pages 1 first_page listed
unfolding list_domains domains_from add_domains next_domains check_domain validate_discovered_domain
    validate_domain has_outer_space last_is_space contains_control contains_code split_dots
    any_label bad_domain_label ends_with_dash any_code byte_length validate_operating_state
    validate_product lower has_key same_codes validate_discovery_marker sort_by insert_by text_le
    codes_le
list_domains-IsListing_example = list_domains-IsListing two_pages {result = listed} refl

-- The same name in other letters.
abbrev same_twice : ℕ → String → Result CdnError DomainDiscoveryPage
same_twice n marker = ok (record {
  next_marker = "";
  domains = domain_of "a.example.com" "" ∷ domain_of "A.example.com" "" ∷ [];
})

same_twice_refused : list_domains same_twice ≡ err unexpected_response
unfolding list_domains domains_from add_domains check_domain validate_discovered_domain
    validate_domain has_outer_space last_is_space contains_control contains_code split_dots
    any_label bad_domain_label ends_with_dash any_code byte_length validate_operating_state
    validate_product lower has_key same_codes
same_twice_refused = refl

-- A label that ends with a dash.
dash_refused : validate_discovered_domain "a-.com" ≡ err invalid_input
unfolding validate_discovered_domain validate_domain has_outer_space last_is_space contains_control
    contains_code split_dots any_label bad_domain_label ends_with_dash any_code byte_length
dash_refused = refl
