-- ===== src/Kodo/Discovery/Turns.antt =====
-- What one turn of the loop does with a page.
use qiniu_exporter.Base.{
  Bool, List, String, [], ap, arith, eq_iff, false, if◌then◌else◌, length, length-append, ltb, not,
  refl, some, str_eq, subst, suc, sym, true, ◌++◌, ◌+◌, ◌<◌, ◌==◌, ◌||◌, ◌∙◌, ◌∷◌, ◌≡◌, ◌≢◌, ◌≤◌,
}
use qiniu_exporter.Base.Keys.{contains}
use qiniu_exporter.Base.Result.{>>=-eq-ok, ok, ok-injective, or_fail, or_fail-eq-ok, refuse_if}
use qiniu_exporter.Base.Sorting.{sort_by, text_le-antisym, text_le-total, text_le_trans}
use qiniu_exporter.Cdn.Names.{IsDistinct}
use qiniu_exporter.Cdn.Points.{found}
use qiniu_exporter.Kodo.{unexpected_response}
use qiniu_exporter.Kodo.Discovery.{
  Bucket, BucketDiscoveryBucket, BucketDiscoveryPage, Listed, Progress, add_buckets,
  bucket_discovery_page_size, bucket_le, continued, finished, follow_marker, max_discovered_buckets,
  take_page, valid_discovery_marker,
}
use qiniu_exporter.Kodo.Discovery.Pages.{AreOf, IsSeen, add_buckets-Added, names}

pub bucket_le-total : (a b : Bucket) → bucket_le a b ≡ false → bucket_le b a ≡ true
unfolding bucket_le
bucket_le-total a b h = ground (
  arith,
  eq_iff a.name b.name,
  eq_iff b.name a.name,
  text_le-total a.name b.name,
  text_le-total a.region b.region,
)

pub bucket_le_trans :
    (a b c : Bucket) → bucket_le a b ≡ true → bucket_le b c ≡ true → bucket_le a c ≡ true
unfolding bucket_le
bucket_le_trans a b c h k = ground (
  arith,
  eq_iff a.name b.name,
  eq_iff b.name c.name,
  eq_iff a.name c.name,
  text_le_trans a.name b.name c.name,
  text_le-antisym a.name b.name,
  text_le-antisym b.name a.name,
  text_le_trans a.region b.region c.region,
)

AreOf-length :
    (ds : List BucketDiscoveryBucket) (bs : List Bucket) → AreOf ds bs → length bs ≡ length ds
AreOf-length [] [] h = refl
AreOf-length [] (b ∷ bs) h = absurd h
AreOf-length (d ∷ ds) [] h = absurd h
AreOf-length (d ∷ ds) (b ∷ bs) (p, h) = ap suc (AreOf-length ds bs h)

-- A page with this flag, its resources read as the buckets bs.
pub record IsPage (page : BucketDiscoveryPage) (truncated : Bool) (bs : List Bucket) : Type 0 where
  pub ds : List BucketDiscoveryBucket
  pub truncation : page.is_truncated ≡ some truncated
  pub present : page.buckets ≡ some ds
  pub are : AreOf ds bs

-- The buckets bs fit behind those of s.
pub record Fits (s : Listed) (bs : List Bucket) : Type 0 where
  pub bounded : length (s.buckets ++ bs) ≤ max_discovered_buckets
  pub distinct : IsDistinct (names (s.buckets ++ bs))

-- What a page does to the variables of the loop.
abbrev pub Taken : Listed → BucketDiscoveryPage → Progress → Type 0
Taken s page (finished out) =
    (bs : List Bucket) × IsPage page false bs
    × Fits s bs
    × (out ≡ sort_by bucket_le (s.buckets ++ bs))
Taken s page (continued s') =
    (bs : List Bucket) × IsPage page true bs
    × Fits s bs
    × (s'.buckets ≡ s.buckets ++ bs)
    × IsSeen s'.buckets s'.seen_buckets
    × (s'.marker ≡ page.next_marker)
    × (length s.buckets < length s'.buckets)
    × (length s'.buckets < max_discovered_buckets)

follow_marker-continued :
    (s : Listed) (found : List BucketDiscoveryBucket) (buckets : List Bucket) (seen : List String)
    (next_marker : String) {p : Progress}
    → follow_marker s found buckets seen next_marker ≡ ok p
    → (p
        ≡ continued (record {
          buckets = buckets;
          seen_buckets = seen;
          seen_markers = next_marker ∷ s.seen_markers;
          marker = next_marker;
        }))
      × (0 < length found)
      × (length buckets ≢ max_discovered_buckets)
unfolding follow_marker
follow_marker-continued s found buckets seen next_marker {p = p} h =
    let (u1, e1, h1) =
      >>=-eq-ok
        (refuse_if (length found == 0 || not (valid_discovery_marker next_marker))
          unexpected_response)
        _ h in
    let (u2, e2, h2) =
      >>=-eq-ok (refuse_if (str_eq next_marker s.marker) unexpected_response) _ h1 in
    let (u3, e3, h3) =
      >>=-eq-ok (refuse_if (contains next_marker s.seen_markers) unexpected_response) _ h2 in
    let (u4, e4, h4) =
      >>=-eq-ok (refuse_if (length buckets == max_discovered_buckets) unexpected_response) _ h3 in
    (sym (ok-injective h4), ground arith, ground arith)

-- What the loop knows when it turns to a page.
pub record IsListed (s : Listed) : Type 0 where
  pub seen : IsSeen s.buckets s.seen_buckets
  pub below : length s.buckets < max_discovered_buckets

turn-Taken :
    (s : Listed) (page : BucketDiscoveryPage) (ds : List BucketDiscoveryBucket)
    (bs buckets : List Bucket) (seen : List String) (truncated : Bool) {p : Progress}
    → IsPage page truncated bs
    → Fits s bs
    → length bs ≡ length ds
    → buckets ≡ s.buckets ++ bs
    → IsSeen buckets seen
    → (if truncated
        then follow_marker s ds buckets seen page.next_marker
        else ok (finished (sort_by bucket_le buckets)))
      ≡ ok p
    → Taken s page p
turn-Taken s page ds bs buckets seen false of_page fit len same is h =
    subst (Taken s page) (ok-injective h) (bs, of_page, fit, ap (sort_by bucket_le) same)
turn-Taken s page ds bs buckets seen true of_page fit len same is h =
    let (e, some_found, room) = follow_marker-continued s ds buckets seen page.next_marker h in
    let longer : length buckets ≡ length s.buckets + length bs =
      ap length same ∙ length-append s.buckets bs in
    subst (Taken s page) (sym e) (
      bs,
      of_page,
      fit,
      same,
      is,
      refl,
      omega (arith, longer, len),
      ground (arith, ap length same, fit.bounded),
    )

pub take_page-Taken :
    (s : Listed) (page : BucketDiscoveryPage) {p : Progress}
    → IsListed s
    → take_page s page ≡ ok p
    → Taken s page p
unfolding take_page
take_page-Taken s page {p = p} is h =
    let (truncated, e1, h1) = >>=-eq-ok (or_fail page.is_truncated unexpected_response) _ h in
    let (ds, e2, h2) = >>=-eq-ok (or_fail page.buckets unexpected_response) _ h1 in
    let (u3, e3, h3) =
      >>=-eq-ok (refuse_if (ltb bucket_discovery_page_size (length ds)) unexpected_response) _ h2 in
    let (u4, e4, h4) =
      >>=-eq-ok
        (refuse_if (ltb max_discovered_buckets (length s.buckets + length ds)) unexpected_response)
        _ h3 in
    let ((buckets, seen), e5, h5) = >>=-eq-ok (add_buckets s.buckets s.seen_buckets ds) _ h4 in
    let (bs, are, same, seen') =
      add_buckets-Added s.buckets s.seen_buckets ds {result = (buckets, seen)} is.seen e5 in
    let page_of : IsPage page truncated bs = record {
      ds = ds;
      truncation = or_fail-eq-ok page.is_truncated unexpected_response e1;
      present = or_fail-eq-ok page.buckets unexpected_response e2;
      are = are;
    } in
    let fit : Fits s bs = record {
      bounded = ground (arith, length-append s.buckets bs, AreOf-length ds bs are);
      distinct = subst (λ (x : List Bucket). IsDistinct (names x)) same seen'.distinct;
    } in
    turn-Taken s page ds bs buckets seen truncated page_of fit (AreOf-length ds bs are) same seen'
      h5
