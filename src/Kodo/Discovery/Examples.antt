-- ===== src/Kodo/Discovery/Examples.antt =====
-- Runs of the bucket listing.
use qiniu_exporter.Base.{List, String, [], false, refl, some, suc, true, zero, ℕ, ◌∷◌, ◌≡◌}
use qiniu_exporter.Base.Keys.{lookup}
use qiniu_exporter.Base.Result.{Result, err, ok}
use qiniu_exporter.Base.Sorting.{codes_le, insert_by, sort_by, text_le}
use qiniu_exporter.Base.Texts.{any_code, byte_length, has_outer_space, last_is_space}
use qiniu_exporter.Kodo.{KodoError, unexpected_response}
use qiniu_exporter.Kodo.Discovery.{
  Bucket, BucketDiscoveryBucket, BucketDiscoveryPage, add_buckets, bucket_le, follow_marker,
  list_buckets, list_from, storage_region_name, take_page, valid_discovery_marker,
  valid_resource_identifier,
}
use qiniu_exporter.Kodo.Discovery.Listing.{
  IsListing, first_page, list_buckets-IsListing, list_buckets_ends,
}

abbrev found_bucket : String → String → BucketDiscoveryBucket
found_bucket name region = record { name = name; region = region; is_private = some true }

abbrev two_pages : ℕ → String → Result KodoError BucketDiscoveryPage
two_pages zero marker = ok (record {
  next_marker = "next";
  is_truncated = some true;
  buckets = some (found_bucket "media" "z0" ∷ found_bucket "logs" "cn-east-2" ∷ []);
})
two_pages (suc n) marker = ok (record {
  next_marker = "";
  is_truncated = some false;
  buckets = some (found_bucket "backup" "later" ∷ []);
})

abbrev listed_bucket : String → String → String → Bucket
listed_bucket name region storage_region = record {
  name = name;
  region = region;
  storage_region = storage_region;
  is_private = true;
}

abbrev all_buckets : List Bucket
all_buckets =
    listed_bucket "backup" "later" "later"
    ∷ listed_bucket "logs" "cn-east-2" "East China - Zhejiang 2"
    ∷ listed_bucket "media" "z0" "East China - Zhejiang"
    ∷ []

list_buckets-IsListing_example : IsListing two_pages 0 first_page all_buckets
unfolding list_buckets list_from take_page add_buckets valid_resource_identifier follow_marker
    valid_discovery_marker sort_by bucket_le insert_by text_le codes_le storage_region_name lookup
    any_code byte_length has_outer_space last_is_space
list_buckets-IsListing_example = list_buckets-IsListing two_pages {result = all_buckets} refl

-- A page that never ends the listing and brings nothing new.
abbrev same_page : ℕ → String → Result KodoError BucketDiscoveryPage
same_page n marker = two_pages 0 ""

list_buckets_ends_example :
    (result : Result KodoError (List Bucket)) × (list_buckets same_page ≡ some result)
list_buckets_ends_example = list_buckets_ends same_page

repeats_refused : list_buckets same_page ≡ some (err unexpected_response)
unfolding list_buckets list_from take_page add_buckets valid_resource_identifier follow_marker
    valid_discovery_marker any_code byte_length has_outer_space last_is_space
repeats_refused = refl
