-- ===== src/Kodo/Discovery/Pages.antt =====
-- What one page adds to a listing, and that a listing ends.
use qiniu_exporter.Base.{
  List, String, [], ap, append-nil, append_assoc, arith, eq_iff, false, not, refl, some, subst, sym,
  true, ◌++◌, ◌||◌, ◌∙◌, ◌∷◌, ◌≡◌,
}
use qiniu_exporter.Base.Keys.{contains, contains-append}
use qiniu_exporter.Base.Result.{>>=-eq-ok, ok, ok-injective, or_fail, or_fail-eq-ok, refuse_if}
use qiniu_exporter.Cdn.Names.{IsDistinct}
use qiniu_exporter.Kodo.{unexpected_response}
use qiniu_exporter.Kodo.Discovery.{
  Bucket, BucketDiscoveryBucket, add_buckets, storage_region_name, valid_resource_identifier,
}
use qiniu_exporter.Limiter.{new}

abbrev pub names : List Bucket → List String
names [] = []
names (b ∷ bs) = b.name ∷ names bs

-- What the bucket of a response becomes.
pub record IsOf (d : BucketDiscoveryBucket) (b : Bucket) : Type 0 where
  pub same_name : b.name ≡ d.name
  pub same_region : b.region ≡ d.region
  pub named_region : b.storage_region ≡ storage_region_name d.region
  pub same_access : d.is_private ≡ some b.is_private
  pub valid_name : valid_resource_identifier b.name ≡ true
  pub valid_region : valid_resource_identifier b.region ≡ true

abbrev pub AreOf : List BucketDiscoveryBucket → List Bucket → Type 0
AreOf [] [] = Unit
AreOf (d ∷ ds) (b ∷ bs) = IsOf d b × AreOf ds bs
AreOf _ _ = ⊥

-- The seen names are those of the buckets, and no bucket has the name of another.
pub record IsSeen (buckets : List Bucket) (seen : List String) : Type 0 where
  pub same : (d : String) → contains d seen ≡ contains d (names buckets)
  pub distinct : IsDistinct (names buckets)

names-append : (xs ys : List Bucket) → names (xs ++ ys) ≡ names xs ++ names ys
names-append [] ys = refl
names-append (x ∷ xs) ys = ap (◌∷◌ x.name) (names-append xs ys)

IsDistinct-append :
    (x : String) (xs : List String)
    → contains x xs ≡ false
    → IsDistinct xs
    → IsDistinct (xs ++ x ∷ [])
IsDistinct-append x [] n h = (refl, tt)
IsDistinct-append x (y ∷ ys) n (p, h) =
    ground (arith, eq_iff x y, eq_iff y x, contains-append y ys (x ∷ []), IsDistinct-append x ys)

IsSeen-add :
    (buckets : List Bucket) (seen : List String) (b : Bucket)
    → IsSeen buckets seen
    → contains b.name seen ≡ false
    → IsSeen (buckets ++ b ∷ []) (b.name ∷ seen)
IsSeen-add buckets seen b s new = record {
  same = λ d. ground (
    arith,
    s.same d,
    names-append buckets (b ∷ []),
    contains-append d (names buckets) (b.name ∷ []),
  );
  distinct =
      rw (names-append buckets (b ∷ []))
        (IsDistinct-append b.name (names buckets) (sym (s.same b.name) ∙ new) s.distinct);
}

-- The resources of a page, put behind the buckets so far.
abbrev pub Added : List Bucket → List BucketDiscoveryBucket → List Bucket × List String → Type 0
Added buckets ds (out, seen') =
    (bs : List Bucket) × AreOf ds bs × (out ≡ buckets ++ bs) × IsSeen out seen'

pub add_buckets-Added :
    (buckets : List Bucket) (seen : List String) (ds : List BucketDiscoveryBucket)
    {result : List Bucket × List String}
    → IsSeen buckets seen
    → add_buckets buckets seen ds ≡ ok result
    → Added buckets ds result
unfolding add_buckets
add_buckets-Added buckets seen [] s h =
    subst (Added buckets []) (ok-injective h) ([], tt, sym (append-nil buckets), s)
add_buckets-Added buckets seen (d ∷ ds) {result = result} s h =
    let (u, e1, h1) =
      >>=-eq-ok
        (refuse_if
          (not (valid_resource_identifier d.name) || not (valid_resource_identifier d.region))
          unexpected_response)
        _ h in
    let (is_private, e2, h2) = >>=-eq-ok (or_fail d.is_private unexpected_response) _ h1 in
    let (u', e3, h3) = >>=-eq-ok (refuse_if (contains d.name seen) unexpected_response) _ h2 in
    let b : Bucket = record {
      name = d.name;
      region = d.region;
      storage_region = storage_region_name d.region;
      is_private = is_private;
    } in
    let (bs, are, out, s') =
      add_buckets-Added (buckets ++ b ∷ []) (d.name ∷ seen) ds {result = result}
        (IsSeen-add buckets seen b s (ground arith)) h3 in
    (
      b ∷ bs,
      (
        record {
          same_name = refl;
          same_region = refl;
          named_region = refl;
          same_access = or_fail-eq-ok d.is_private unexpected_response e2;
          valid_name = ground arith;
          valid_region = ground arith;
        },
        are,
      ),
      out ∙ append_assoc buckets (b ∷ []) bs,
      s',
    )
