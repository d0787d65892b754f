-- ===== src/Cdn/Discovery.antt =====
-- internal/qiniu/cdn/discovery.go: the listing of domains page by page. A request for a page is a
-- parameter: what the page of this number gives for its marker.
pub mod Added
pub mod Listing
mod Examples
use qiniu_exporter.Base.{
  Bool, List, String, [], false, if◌then◌else◌, leb, length, ltb, not, str_eq, suc, true, zero, ℕ,
  ◌&&◌, ◌++◌, ◌+◌, ◌==◌, ◌||◌, ◌∷◌,
}
use qiniu_exporter.Base.Keys.{contains}
use qiniu_exporter.Base.Result.{Result, err, ok, refuse_if, ◌>>=◌, ◌>>◌}
use qiniu_exporter.Base.Sorting.{codes, sort_by, text_le}
use qiniu_exporter.Base.Texts.{any_code, byte_length, has_key, has_outer_space}
use qiniu_exporter.Cdn.{CdnError, invalid_input, unexpected_response}
use qiniu_exporter.Cdn.Names.{contains_control, validate_domain}

pub record Domain : Type 0 where
  pub name : String
  pub operating_state : String
  pub product : String

pub record DomainDiscoveryPage : Type 0 where
  pub next_marker : String
  pub domains : List Domain

abbrev pub domain_discovery_page_size : ℕ
domain_discovery_page_size = 1_000

abbrev pub max_domain_discovery_pages : ℕ
max_domain_discovery_pages = 100

abbrev pub max_domain_discovery_resources : ℕ
max_domain_discovery_resources = 10_000

abbrev pub max_domain_discovery_marker : ℕ
max_domain_discovery_marker = 4_096

abbrev into_first : ℕ → List (List ℕ) → List (List ℕ)
into_first c [] = (c ∷ []) ∷ []
into_first c (s ∷ ss) = (c ∷ s) ∷ ss

-- `strings.Split(s, ".")`
unfoldable pub split_dots : List ℕ → List (List ℕ)
split_dots [] = [] ∷ []
split_dots (c ∷ s) =
    let behind = split_dots s in if c == b'.' then [] ∷ behind else into_first c behind

-- `strings.TrimPrefix(s, ".")`
abbrev pub trim_dot : List ℕ → List ℕ
trim_dot [] = []
trim_dot (c ∷ s) = if c == b'.' then s else c ∷ s

abbrev is_label_code : ℕ → Bool
is_label_code c =
    (leb b'a' c && leb c b'z')
    || (leb b'A' c && leb c b'Z')
    || (leb b'0' c && leb c b'9')
    || c == b'-'

unfoldable pub ends_with_dash : ℕ → List ℕ → Bool
ends_with_dash c [] = c == b'-'
ends_with_dash c (d ∷ s) = ends_with_dash d s

unfoldable pub bad_domain_label : List ℕ → Bool
unfolding ends_with_dash any_code byte_length
bad_domain_label [] = true
bad_domain_label (c ∷ s) =
    ltb 63 (byte_length (c ∷ s))
    || c == b'-'
    || ends_with_dash c s
    || any_code (λ d. not (is_label_code d)) (c ∷ s)

unfoldable pub any_label : List (List ℕ) → Bool
unfolding bad_domain_label
any_label [] = false
any_label (s ∷ ss) = bad_domain_label s || any_label ss

-- Every error of the validators becomes an unexpected response.
abbrev pub or_unexpected : Result CdnError (Unit {0}) → Result CdnError (Unit {0})
or_unexpected (ok u) = ok u
or_unexpected (err e) = err unexpected_response

unfoldable pub validate_discovered_domain : String → Result CdnError (Unit {0})
unfolding split_dots any_label any_code byte_length
validate_discovered_domain domain = do
  validate_domain domain
  refuse_if
      (ltb 253 (byte_length (codes domain))
        || any_code (λ c. c == b'/' || c == b':' || c == b'?' || c == b'#' || c == b' ')
            (codes domain))
      invalid_input
  refuse_if (ltb (length (split_dots (trim_dot (codes domain)))) 2) invalid_input
  refuse_if (any_label (split_dots (trim_dot (codes domain)))) invalid_input

unfoldable pub validate_operating_state : String → Result CdnError (Unit {0})
validate_operating_state state =
    refuse_if
      (not (
        str_eq state "processing"
        || str_eq state "success"
        || str_eq state "failed"
        || str_eq state "frozen"
        || str_eq state "offlined"))
      invalid_input

unfoldable pub validate_product : String → Result CdnError (Unit {0})
validate_product product =
    refuse_if (not (str_eq product "" || str_eq product "cdn" || str_eq product "dcdn"))
      invalid_input

unfoldable pub validate_discovery_marker : String → Result CdnError (Unit {0})
unfolding byte_length has_outer_space contains_control
validate_discovery_marker marker =
    refuse_if
      (ltb max_domain_discovery_marker (byte_length (codes marker))
        || has_outer_space (codes marker)
        || contains_control (codes marker))
      invalid_input

-- `strings.ToLower` of a name that has passed, and so is ASCII.
unfoldable pub lower : List ℕ → List ℕ
lower [] = []
lower (c ∷ s) = (if leb b'A' c && leb c b'Z' then c + 32 else c) ∷ lower s

abbrev pub name_key : Domain → List ℕ
name_key d = lower (codes d.name)

-- An older response omits the product.
abbrev pub with_product : Domain → Domain
with_product d = if str_eq d.product "" then record d { product = "cdn" } else d

-- A domain is put behind the others unless its product is DCDN.
abbrev pub enroll : List Domain → Domain → List Domain
enroll domains d = if str_eq d.product "dcdn" then domains else domains ++ d ∷ []

-- The checks of one domain.
unfoldable pub check_domain : List (List ℕ) → Domain → Result CdnError (Unit {0})
unfolding validate_discovered_domain validate_operating_state validate_product lower has_key
check_domain seen d = do
  or_unexpected (validate_discovered_domain d.name)
  or_unexpected (validate_operating_state d.operating_state)
  or_unexpected (validate_product d.product)
  refuse_if (has_key (name_key d) seen) unexpected_response

-- The inner loop: the domains enrolled and the keys seen so far, and the domains behind.
unfoldable pub add_domains :
    List Domain → List (List ℕ) → List Domain → Result CdnError (List Domain × List (List ℕ))
unfolding check_domain
add_domains domains seen [] = ok (domains, seen)
add_domains domains seen (d ∷ ds) = do
  check_domain seen d
  add_domains (enroll domains (with_product d)) (name_key d ∷ seen) ds

-- The variables of the loop over the pages.
pub record Discovered : Type 0 where
  pub domains : List Domain
  pub seen_domains : List (List ℕ)
  pub seen_markers : List String
  pub marker : String

abbrev pub domain_le : Domain → Domain → Bool
domain_le a b = text_le a.name b.name

-- Behind the domains of a page that has a marker.
unfoldable pub next_domains :
    Discovered → DomainDiscoveryPage → List Domain → List (List ℕ) → Result CdnError Discovered
unfolding validate_discovery_marker
next_domains s page domains seen = do
  or_unexpected (validate_discovery_marker page.next_marker)
  refuse_if (length page.domains == 0) unexpected_response
  refuse_if (str_eq page.next_marker s.marker) unexpected_response
  refuse_if (contains page.next_marker s.seen_markers) unexpected_response
  refuse_if (length seen == max_domain_discovery_resources) unexpected_response
  ok (record {
    domains = domains;
    seen_domains = seen;
    seen_markers = page.next_marker ∷ s.seen_markers;
    marker = page.next_marker;
  })

module _ (get_page : ℕ → String → Result CdnError DomainDiscoveryPage) where
  -- The loop from a page on, with so many pages left.
  unfoldable pub domains_from : ℕ → ℕ → Discovered → Result CdnError (List Domain)
  unfolding add_domains next_domains
  domains_from zero page_number s = err unexpected_response
  domains_from (suc left) page_number s = do
    page ← get_page page_number s.marker
    refuse_if (ltb domain_discovery_page_size (length page.domains)) unexpected_response
    refuse_if (ltb max_domain_discovery_resources (length s.seen_domains + length page.domains))
        unexpected_response
    (domains, seen) ← add_domains s.domains s.seen_domains page.domains
    if str_eq page.next_marker ""
        then ok (sort_by domain_le domains)
        else (next_domains s page domains seen >>= λ s'. domains_from left (suc page_number) s')

  unfoldable pub list_domains : Result CdnError (List Domain)
  unfolding domains_from
  list_domains =
      domains_from max_domain_discovery_pages 1
        (record { domains = []; seen_domains = []; seen_markers = []; marker = "" })
