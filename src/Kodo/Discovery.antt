-- ===== src/Kodo/Discovery.antt =====
-- internal/qiniu/kodo/discovery.go: the listing of buckets page by page. A request for a page is a
-- parameter: what the n-th request of a listing gives for its marker.
pub mod Pages
pub mod Turns
pub mod Listing
mod Examples
use qiniu_exporter.Base.{
  Bool, List, Option, String, [], if◌then◌else◌, leb, length, ltb, none, not, some, str_eq, suc,
  zero, ℕ, ◌&&◌, ◌++◌, ◌+◌, ◌==◌, ◌||◌, ◌∷◌,
}
use qiniu_exporter.Base.Keys.{contains, lookup}
use qiniu_exporter.Base.Result.{Result, err, ok, or_fail, refuse_if, ◌>>=◌, ◌>>◌}
use qiniu_exporter.Base.Sorting.{codes, sort_by, text_le}
use qiniu_exporter.Base.Texts.{any_code, byte_length, has_outer_space, is_control, is_space}
use qiniu_exporter.Cdn.Points.{found}
use qiniu_exporter.Kodo.{KodoError, unexpected_response}

pub record Bucket : Type 0 where
  pub name : String
  pub region : String
  pub storage_region : String
  pub is_private : Bool

-- A pointer that the response leaves out is none.
pub record BucketDiscoveryBucket : Type 0 where
  pub name : String
  pub region : String
  pub is_private : Option Bool

pub record BucketDiscoveryPage : Type 0 where
  pub next_marker : String
  pub is_truncated : Option Bool
  pub buckets : Option (List BucketDiscoveryBucket)

abbrev pub bucket_discovery_page_size : ℕ
bucket_discovery_page_size = 100

abbrev pub max_discovered_buckets : ℕ
max_discovered_buckets = 200

abbrev pub max_bucket_discovery_marker : ℕ
max_bucket_discovery_marker = 4096

-- `storageRegionNames`
unfoldable pub storage_region_names : List (String × String)
storage_region_names =
    ("z0", "East China - Zhejiang")
    ∷ ("cn-east-2", "East China - Zhejiang 2")
    ∷ ("z1", "North China - Hebei")
    ∷ ("z2", "South China - Guangdong")
    ∷ ("na0", "North America - Los Angeles")
    ∷ ("as0", "Asia Pacific - Singapore")
    ∷ ("ap-southeast-2", "Asia Pacific - Hanoi")
    ∷ ("ap-southeast-3", "Asia Pacific - Ho Chi Minh City")
    ∷ []

unfoldable pub storage_region_name : String → String
unfolding storage_region_names lookup
storage_region_name region_id = elim (lookup region_id storage_region_names) [
  | some name ↦ name
  | none ↦ region_id
]

unfoldable pub valid_resource_identifier : String → Bool
unfolding any_code
valid_resource_identifier value =
    not (str_eq value "")
    && not (any_code (λ c. c == b'/') (codes value))
    && not (any_code (λ c. is_space c || is_control c) (codes value))

unfoldable pub valid_discovery_marker : String → Bool
unfolding any_code byte_length has_outer_space
valid_discovery_marker marker =
    not (str_eq marker "")
    && leb (byte_length (codes marker)) max_bucket_discovery_marker
    && not (has_outer_space (codes marker))
    && not (any_code is_control (codes marker))

-- The inner loop: the buckets and their names so far, and those behind.
unfoldable pub add_buckets :
    List Bucket
    → List String
    → List BucketDiscoveryBucket
    → Result KodoError (List Bucket × List String)
add_buckets buckets seen [] = ok (buckets, seen)
add_buckets buckets seen (d ∷ ds) = do
  refuse_if (not (valid_resource_identifier d.name) || not (valid_resource_identifier d.region))
      unexpected_response
  is_private ← or_fail d.is_private unexpected_response
  refuse_if (contains d.name seen) unexpected_response
  add_buckets
      (buckets
        ++ (record {
          name = d.name;
          region = d.region;
          storage_region = storage_region_name d.region;
          is_private = is_private;
        })
          ∷ [])
      (d.name ∷ seen) ds

-- The variables of the loop over the pages.
pub record Listed : Type 0 where
  pub buckets : List Bucket
  pub seen_buckets : List String
  pub seen_markers : List String
  pub marker : String

-- A page ends the listing, or the loop goes on.
pub data Progress : Type 0 where
  finished : List Bucket → Progress
  continued : Listed → Progress

-- By name, then by region.
unfoldable pub bucket_le : Bucket → Bucket → Bool
bucket_le a b = if str_eq a.name b.name then text_le a.region b.region else text_le a.name b.name

-- Behind the resources of a page that is not the last.
unfoldable pub follow_marker :
    Listed
    → List BucketDiscoveryBucket
    → List Bucket
    → List String
    → String
    → Result KodoError Progress
follow_marker s found buckets seen next_marker = do
  refuse_if (length found == 0 || not (valid_discovery_marker next_marker)) unexpected_response
  refuse_if (str_eq next_marker s.marker) unexpected_response
  refuse_if (contains next_marker s.seen_markers) unexpected_response
  refuse_if (length buckets == max_discovered_buckets) unexpected_response
  ok (
      continued (record {
        buckets = buckets;
        seen_buckets = seen;
        seen_markers = next_marker ∷ s.seen_markers;
        marker = next_marker;
      }))

-- The body of the loop on a page.
unfoldable pub take_page : Listed → BucketDiscoveryPage → Result KodoError Progress
unfolding add_buckets
take_page s page = do
  is_truncated ← or_fail page.is_truncated unexpected_response
  found ← or_fail page.buckets unexpected_response
  refuse_if (ltb bucket_discovery_page_size (length found)) unexpected_response
  refuse_if (ltb max_discovered_buckets (length s.buckets + length found)) unexpected_response
  (buckets, seen) ← add_buckets s.buckets s.seen_buckets found
  if is_truncated
      then follow_marker s found buckets seen page.next_marker
      else ok (finished (sort_by bucket_le buckets))

module _ (get_page : ℕ → String → Result KodoError BucketDiscoveryPage) where
  -- The `for` without a condition, from the n-th request on; `none` says that the fuel ran out.
  unfoldable pub list_from : ℕ → ℕ → Listed → Option (Result KodoError (List Bucket))
  list_from zero n s = none
  list_from (suc fuel) n s = elim (get_page n s.marker >>= take_page s) [
    | err e ↦ some (err e)
    | ok (finished buckets) ↦ some (ok buckets)
    | ok (continued s') ↦ list_from fuel (suc n) s'
  ]

  unfoldable pub list_buckets : Option (Result KodoError (List Bucket))
  unfolding list_from
  list_buckets =
      list_from max_discovered_buckets 0
        (record { buckets = []; seen_buckets = []; seen_markers = []; marker = "" })
