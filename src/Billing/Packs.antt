-- ===== src/Billing/Packs.antt =====
-- The resource packs: the paging of client.go and, of internal/app/billing.go, their validation.
use qiniu_exporter.Base.{
  Bool, Bool-cases, List, String, [], append_assoc, arith, if◌then◌else◌, inl, inr, length, ltb,
  not, str_eq, subst, suc, sym, zero, ℕ, ◌++◌, ◌<◌, ◌||◌, ◌∙◌, ◌∷◌, ◌≡◌, ◌≤◌,
}
use qiniu_exporter.Base.Int.{ltb_ℤ, pos, ℤ}
use qiniu_exporter.Base.Result.{>>=-eq-ok, Result, err, ok, ok-injective, refuse_if, ◌>>=◌, ◌>>◌}
use qiniu_exporter.Base.Sorting.{codes}
use qiniu_exporter.Base.Texts.{any_code, byte_length, has_key, is_control}
use qiniu_exporter.Billing.{
  BillingError, duplicate_labels, invalid_labels, invalid_values, not_in_allowlist,
  pagination_limit, too_many_packs,
}
use qiniu_exporter.Cdn.Points.{found}

pub record ResourcePack : Type 0 where
  pub item_name : String
  pub zone_name : String
  pub available_time : String
  pub total_surplus : ℤ
  pub month_used : ℤ
  pub month_remain : ℤ
  pub unit : String

abbrev pub resource_pack_page_size : ℕ
resource_pack_page_size = 200

abbrev pub resource_pack_max_pages : ℕ
resource_pack_max_pages = 50

module _ (get_page : ℕ → Result BillingError (List ResourcePack)) where
  -- The loop from a page on, with so many pages left.
  unfoldable pub packs_from : ℕ → ℕ → List ResourcePack → Result BillingError (List ResourcePack)
  packs_from zero page found = err pagination_limit
  packs_from (suc left) page found = get_page page >>= λ page_items.
      let behind = packs_from left (suc page) (found ++ page_items) in
      if ltb (length page_items) resource_pack_page_size then ok (found ++ page_items) else behind

  unfoldable pub resource_pack_month_overview : Result BillingError (List ResourcePack)
  unfolding packs_from
  resource_pack_month_overview = packs_from resource_pack_max_pages 1 []

  -- The pages from one on hold these packs: the last is the first that is not full.
  pub data Paged : ℕ → List ResourcePack → Type 0 where
    last_page :
        {page : ℕ} (page_items : List ResourcePack)
        → get_page page ≡ ok page_items
        → length page_items < resource_pack_page_size
        → Paged page page_items
    full_page :
        {page : ℕ} (page_items rest : List ResourcePack)
        → get_page page ≡ ok page_items
        → resource_pack_page_size ≤ length page_items
        → Paged (suc page) rest
        → Paged page (page_items ++ rest)

  packs_from-Paged :
      (left page : ℕ) (found : List ResourcePack) {result : List ResourcePack}
      → packs_from left page found ≡ ok result
      → (rest : List ResourcePack) × Paged page rest × (result ≡ found ++ rest)
  unfolding packs_from
  packs_from-Paged zero page found h = cc
  packs_from-Paged (suc left) page found {result = result} h =
      let (page_items, got, h1) = >>=-eq-ok (get_page page) _ h in
      elim (Bool-cases (ltb (length page_items) resource_pack_page_size)) [
        | inl q ↦
            (page_items, last_page page_items got (ground arith), sym (ok-injective (rw q at h1)))
        | inr q ↦
            let behind : packs_from left (suc page) (found ++ page_items) ≡ ok result =
              rw q at h1 in
            let (rest, paged, same) =
              packs_from-Paged left (suc page) (found ++ page_items) {result = result} behind in
            (
              page_items ++ rest,
              full_page page_items rest got (ground arith) paged,
              same ∙ append_assoc found page_items rest,
            )
      ]

  -- A listing that succeeds returns what the pages from the first on hold, in order, up to the
  -- first page that is not full, and nothing of it is left out.
  pub resource_pack_month_overview-Paged :
      {result : List ResourcePack} → resource_pack_month_overview ≡ ok result → Paged 1 result
  unfolding resource_pack_month_overview
  resource_pack_month_overview-Paged h =
      let (rest, paged, same) = packs_from-Paged resource_pack_max_pages 1 [] h in
      subst (Paged 1) (sym same) paged

-- `config.ResourcePackAllowlist`, and the labels of a pack.
pub record Labels : Type 0 where
  pub item : String
  pub zone : String
  pub available_time : String
  pub unit : String

abbrev pub labels_of : ResourcePack → Labels
labels_of p = record {
  item = p.item_name;
  zone = p.zone_name;
  available_time = p.available_time;
  unit = p.unit;
}

-- `strings.Join` with a zero byte.
abbrev pub label_key : Labels → List ℕ
label_key l = codes l.item ++ 0 ∷ codes l.zone ++ 0 ∷ codes l.available_time ++ 0 ∷ codes l.unit

unfoldable pub allowed_keys : List Labels → List (List ℕ)
allowed_keys [] = []
allowed_keys (l ∷ ls) = label_key l ∷ allowed_keys ls

unfoldable pub bad_label : String → Bool
unfolding byte_length any_code
bad_label label =
    str_eq label "" || ltb 128 (byte_length (codes label)) || any_code is_control (codes label)

abbrev pub bad_values : ResourcePack → Bool
bad_values p =
    ltb_ℤ p.total_surplus (pos 0)
    || ltb_ℤ p.month_used (pos 0)
    || ltb_ℤ p.month_remain (pos 0)
    || ltb_ℤ p.total_surplus p.month_used
    || ltb_ℤ p.total_surplus p.month_remain

-- The loop of `validateResourcePacks`, with the keys seen so far.
unfoldable pub check_packs :
    List (List ℕ) → List (List ℕ) → List ResourcePack → Result BillingError (Unit {0})
unfolding bad_label has_key
check_packs allowed seen [] = ok tt
check_packs allowed seen (p ∷ ps) = do
  refuse_if
      (bad_label p.item_name
        || bad_label p.zone_name
        || bad_label p.available_time
        || bad_label p.unit)
      invalid_labels
  refuse_if (bad_values p) invalid_values
  refuse_if (not (has_key (label_key (labels_of p)) allowed)) not_in_allowlist
  refuse_if (has_key (label_key (labels_of p)) seen) duplicate_labels
  check_packs allowed (label_key (labels_of p) ∷ seen) ps

unfoldable pub validate_resource_packs :
    List ResourcePack → List Labels → Result BillingError (Unit {0})
unfolding check_packs allowed_keys
validate_resource_packs packs allowlist = do
  refuse_if (ltb 10_000 (length packs)) too_many_packs
  check_packs (allowed_keys allowlist) [] packs
