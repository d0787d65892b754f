-- ===== src/Billing/Details.antt =====
-- `BillDetail` of client.go: the statement of a finalized month. The request for the decoded
-- response is a parameter.
use qiniu_exporter.Base.{
  All, List, String, [], ap, arith, eq_iff, leb, length, ltb, not, refl, str_eq, subst, suc, true,
  ◌<◌, ◌||◌, ◌∷◌, ◌≡◌, ◌≤◌,
}
use qiniu_exporter.Base.Result.{
  >>=-eq-ok, Result, ok, ok-injective, or_fail, refuse_if, ◌>>=◌, ◌>>◌,
}
use qiniu_exporter.Billing.{
  items, BillDetail, BillItem, BillSummaryData, BillingError, BillingPeriod, RawItem, bill_item,
  bill_items, invalid_item, invalid_period, max_items, too_many_items, validated_total,
}
use qiniu_exporter.Billing.Schedule.{valid_monthly_period}

unfoldable pub bill_detail :
    (BillingPeriod → Result BillingError BillSummaryData)
    → BillingPeriod
    → Result BillingError BillDetail
unfolding valid_monthly_period validated_total items
bill_detail get period = do
  refuse_if (not (valid_monthly_period period)) invalid_period
  data_in ← get period
  total ← validated_total data_in
  found ← items data_in period
  ok (record { total_money = total; currency = data_in.currency; items = found })

-- An item lies in the period, and it is in the currency of the statement.
pub record IsItem (currency : String) (period : BillingPeriod) (item : BillItem) : Type 0 where
  pub same_currency : item.currency ≡ currency
  pub from_start : period.start_at ≤ item.start_at
  pub lasts : item.start_at < item.end_at
  pub to_end : item.end_at ≤ period.end_at

bill_item-IsItem :
    (currency : String) (period : BillingPeriod) (raw : RawItem) {item : BillItem}
    → bill_item currency period raw ≡ ok item
    → IsItem currency period item
unfolding bill_item
bill_item-IsItem currency period raw h =
    let (start_at, e1, h1) = >>=-eq-ok (or_fail raw.start_at invalid_item) _ h in
    let (end_at, e2, h2) = >>=-eq-ok (or_fail raw.end_at invalid_item) _ h1 in
    let (item_money, e3, h3) = >>=-eq-ok (or_fail raw.item_money invalid_item) _ h2 in
    let (u4, e4, h4) =
      >>=-eq-ok
        (refuse_if
          (not (str_eq raw.currency currency)
            || str_eq raw.bill_period ""
            || ltb start_at period.start_at
            || ltb period.end_at end_at
            || leb end_at start_at)
          invalid_item)
        _ h3 in
    subst (IsItem currency period) (ok-injective h4) (record {
      same_currency = ground (arith, eq_iff raw.currency currency);
      from_start = ground arith;
      lasts = ground arith;
      to_end = ground arith;
    })

bill_items-IsItem :
    (currency : String) (period : BillingPeriod) (raws : List RawItem) {found : List BillItem}
    → bill_items currency period raws ≡ ok found
    → All (IsItem currency period) found × (length found ≡ length raws)
unfolding bill_items
bill_items-IsItem currency period [] h =
    subst (λ (x : List BillItem). All (IsItem currency period) x × (length x ≡ 0)) (ok-injective h)
      (tt, refl)
bill_items-IsItem currency period (raw ∷ raws) h =
    let (item, e1, h1) = >>=-eq-ok (bill_item currency period raw) _ h in
    let (behind, e2, h2) = >>=-eq-ok (bill_items currency period raws) _ h1 in
    let (all_items, len) = bill_items-IsItem currency period raws e2 in
    subst (λ (x : List BillItem). All (IsItem currency period) x × (length x ≡ suc (length raws)))
      (ok-injective h2) ((bill_item-IsItem currency period raw e1, all_items), ap suc len)

-- A statement that is accepted is that of a whole month in Asia/Shanghai, and every one of its
-- items, at most 10000, is in its currency and in the month, and ends after it starts.
pub bill_detail-IsItem :
    (get : BillingPeriod → Result BillingError BillSummaryData) (period : BillingPeriod)
    {detail : BillDetail}
    → bill_detail get period ≡ ok detail
    → (valid_monthly_period period ≡ true)
      × All (IsItem detail.currency period) detail.items
      × (length detail.items ≤ max_items)
unfolding bill_detail items
bill_detail-IsItem get period h =
    let (u1, e1, h1) =
      >>=-eq-ok (refuse_if (not (valid_monthly_period period)) invalid_period) _ h in
    let (data_in, e2, h2) = >>=-eq-ok (get period) _ h1 in
    let (total, e3, h3) = >>=-eq-ok (validated_total data_in) _ h2 in
    let (found, e4, h4) = >>=-eq-ok (items data_in period) _ h3 in
    let (u5, e5, h5) =
      >>=-eq-ok (refuse_if (ltb max_items (length data_in.raw_items)) too_many_items) _ e4 in
    let (all_items, len) = bill_items-IsItem data_in.currency period data_in.raw_items h5 in
    let valid : valid_monthly_period period ≡ true = ground arith in
    let few : length found ≤ max_items = ground (arith, len) in
    subst
      (λ (d : BillDetail).
        (valid_monthly_period period ≡ true)
        × All (IsItem d.currency period) d.items
        × (length d.items ≤ max_items))
      (ok-injective h4) (valid, all_items, few)
