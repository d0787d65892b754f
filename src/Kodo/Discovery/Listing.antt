-- ===== src/Kodo/Discovery/Listing.antt =====
-- The loop over the pages: that it ends, and that it lists what the pages together hold.
use qiniu_exporter.Base.{
  List, Option, String, [], ap, append_assoc, arith, false, inl, inr, length, none, refl, some,
  subst, suc, sym, true, zero, ℕ, ◌++◌, ◌+◌, ◌∙◌, ◌≡◌, ◌≤◌,
}
use qiniu_exporter.Base.Result.{>>=-eq-ok, Result, Result-cases, err, ok, ◌>>=◌}
use qiniu_exporter.Base.Sorting.{IsSorted, sort_by-IsSorted, sort_by-Perm, sort_by-length}
use qiniu_exporter.Cdn.Names.{IsDistinct}
use qiniu_exporter.Kodo.{KodoError}
use qiniu_exporter.Kodo.Discovery.{
  Bucket, BucketDiscoveryPage, Listed, Progress, bucket_le, continued, finished, list_buckets,
  list_from, max_discovered_buckets, take_page,
}
use qiniu_exporter.Kodo.Discovery.Pages.{names}
use qiniu_exporter.Kodo.Discovery.Turns.{
  IsListed, IsPage, Taken, bucket_le-total, bucket_le_trans, take_page-Taken,
}
use mathlib.Core.List.{Perm}

abbrev pub first_page : Listed
first_page = record { buckets = []; seen_buckets = []; seen_markers = []; marker = "" }

module _ (get_page : ℕ → String → Result KodoError BucketDiscoveryPage) where
  -- The pages from the n-th request on, the first of them asked for with this marker and every
  -- other with the marker of the page before, hold these buckets; the last of them says so.
  pub data Chain : ℕ → String → List Bucket → Type 0 where
    last_page :
        {n : ℕ} {marker : String} (page : BucketDiscoveryPage) (bs : List Bucket)
        → get_page n marker ≡ ok page
        → IsPage page false bs
        → Chain n marker bs
    further_page :
        {n : ℕ} {marker : String} (page : BucketDiscoveryPage) (bs rest : List Bucket)
        → get_page n marker ≡ ok page
        → IsPage page true bs
        → Chain (suc n) page.next_marker rest
        → Chain n marker (bs ++ rest)

  -- What a successful listing returns: what the pages hold, in order, no name twice.
  pub record IsListing (n : ℕ) (s : Listed) (result : List Bucket) : Type 0 where
    pub behind : List Bucket
    pub pages : Chain n s.marker behind
    pub rearranged : Perm result (s.buckets ++ behind)
    pub sorted : IsSorted bucket_le result
    pub bounded : length result ≤ max_discovered_buckets
    pub distinct : IsDistinct (names (s.buckets ++ behind))

  abbrev Ends : ℕ → Listed → Option (Result KodoError (List Bucket)) → Type 0
  Ends n s none = ⊥
  Ends n s (some (err e)) = Unit
  Ends n s (some (ok result)) = IsListing n s result

  finished-IsListing :
      (n : ℕ) (s : Listed) (page : BucketDiscoveryPage) (out : List Bucket)
      → get_page n s.marker ≡ ok page
      → Taken s page (finished out)
      → IsListing n s out
  finished-IsListing n s page out got (bs, of_page, fit, same) =
      subst (IsListing n s) (sym same) (record {
        behind = bs;
        pages = last_page page bs got of_page;
        rearranged = sort_by-Perm bucket_le (s.buckets ++ bs);
        sorted = sort_by-IsSorted bucket_le bucket_le-total bucket_le_trans (s.buckets ++ bs);
        bounded = omega (arith, sort_by-length bucket_le (s.buckets ++ bs), fit.bounded);
        distinct = fit.distinct;
      })

  continued-IsListing :
      (n : ℕ) (s s' : Listed) (page : BucketDiscoveryPage)
      (r : Option (Result KodoError (List Bucket)))
      → get_page n s.marker ≡ ok page
      → Taken s page (continued s')
      → Ends (suc n) s' r
      → Ends n s r
  continued-IsListing n s s' page none got taken later = absurd later
  continued-IsListing n s s' page (some (err e)) got taken later = tt
  continued-IsListing n s s' page (some (ok out)) got
        (bs, of_page, fit, same, is, marked, longer, room) later =
      let all : s'.buckets ++ later.behind ≡ s.buckets ++ (bs ++ later.behind) =
        ap (λ (x : List Bucket). x ++ later.behind) same ∙ append_assoc s.buckets bs later.behind in
      record {
        behind = bs ++ later.behind;
        pages =
            further_page page bs later.behind got of_page
              (subst (λ m. Chain (suc n) m later.behind) marked later.pages);
        rearranged = subst (Perm out) all later.rearranged;
        sorted = later.sorted;
        bounded = later.bounded;
        distinct = subst (λ (x : List Bucket). IsDistinct (names x)) all later.distinct;
      }

  abbrev follow : ℕ → ℕ → Result KodoError Progress → Option (Result KodoError (List Bucket))
  follow fuel n outcome = elim outcome [
    | err e ↦ some (err e)
    | ok (finished buckets) ↦ some (ok buckets)
    | ok (continued s') ↦ list_from get_page fuel (suc n) s'
  ]

  list_from-Ends :
      (fuel n : ℕ) (s : Listed)
      → IsListed s
      → max_discovered_buckets ≤ length s.buckets + fuel
      → Ends n s (list_from get_page fuel n s)
  unfolding list_from
  list_from-Ends zero n s is enough = absurd (omega (arith, is.below))
  list_from-Ends (suc fuel) n s is enough =
      elim (Result-cases (get_page n s.marker >>= take_page s)) [
        | inr (e, q) ↦
            let step : list_from get_page (suc fuel) n s ≡ some (err e) = ap (follow fuel n) q in
            subst (Ends n s) (sym step) tt
        | inl (finished out, q) ↦
            let step : list_from get_page (suc fuel) n s ≡ some (ok out) = ap (follow fuel n) q in
            let (page, got, h) = >>=-eq-ok (get_page n s.marker) (take_page s) q in
            subst (Ends n s) (sym step)
              (finished-IsListing n s page out got (take_page-Taken s page is h))
        | inl (continued s', q) ↦
            let step : list_from get_page (suc fuel) n s ≡ list_from get_page fuel (suc n) s' =
              ap (follow fuel n) q in
            let (page, got, h) = >>=-eq-ok (get_page n s.marker) (take_page s) q in
            let (bs, of_page, fit, same, seen, marked, longer, room) =
              take_page-Taken s page is h in
            subst (Ends n s) (sym step) (
              continued-IsListing n s s' page (list_from get_page fuel (suc n) s') got
                (bs, of_page, fit, same, seen, marked, longer, room)
                (list_from-Ends fuel (suc n) s' (record { seen = seen; below = room })
                  (omega arith)))
      ]

  first_page-IsListed : IsListed first_page
  first_page-IsListed = record {
    seen = record { same = λ d. refl; distinct = tt };
    below = omega arith;
  }

  Ends-some :
      (n : ℕ) (s : Listed) (r : Option (Result KodoError (List Bucket)))
      → Ends n s r
      → (result : Result KodoError (List Bucket)) × (r ≡ some result)
  Ends-some n s none h = absurd h
  Ends-some n s (some r) h = (r, refl)

  -- Whatever the requests give, the listing ends, and within 200 of them: every page but the last
  -- brings a bucket, and a page that brings the two hundredth must be the last.
  pub list_buckets_ends :
      (result : Result KodoError (List Bucket)) × (list_buckets get_page ≡ some result)
  unfolding list_buckets
  list_buckets_ends =
      Ends-some 0 first_page (list_from get_page max_discovered_buckets 0 first_page)
        (list_from-Ends max_discovered_buckets 0 first_page first_page-IsListed (omega arith))

  -- A listing that succeeds returns what the pages hold, from the first one, asked for without a
  -- marker, to the one that is not truncated: each of their buckets once, sorted by name and
  -- region, at most 200 and no name twice.
  pub list_buckets-IsListing :
      {result : List Bucket}
      → list_buckets get_page ≡ some (ok result)
      → IsListing 0 first_page result
  unfolding list_buckets
  list_buckets-IsListing h =
      subst (Ends 0 first_page) h
        (list_from-Ends max_discovered_buckets 0 first_page first_page-IsListed (omega arith))
