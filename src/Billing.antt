-- ===== src/Billing.antt =====
-- internal/qiniu/billing: types.go, and of client.go what it makes of the decoded responses. A
-- request is a parameter; what parseBillingItemTime reads is a parameter of the decoded item. A
-- Fixed8 is an int64, here the number that its 64 bits spell.
pub mod Schedule
pub mod Packs
pub mod Details
pub mod Daily
pub mod History
mod Examples
use qiniu_exporter.Base.{
  List, Option, String, [], if◌then◌else◌, leb, length, ltb, none, not, some, str_eq, ℕ, ◌%◌, ◌+◌,
  ◌-◌, ◌==◌, ◌^◌, ◌||◌, ◌∷◌,
}
use qiniu_exporter.Base.Result.{Result, err, ok, or_fail, refuse_if, ◌>>=◌, ◌>>◌}

pub data BillingError : Type 0 where
  transport missing_fields conflicting_balance too_many_items invalid_item invalid_period :
      BillingError
  pagination_limit unsupported_currency different_currencies invalid_labels : BillingError
  invalid_values not_in_allowlist duplicate_labels too_many_packs : BillingError

abbrev pub Fixed8 : Type 0
Fixed8 = ℕ

-- Go's `a - b` and `a + b` on an int64.
abbrev pub minus_fixed : Fixed8 → Fixed8 → Fixed8
minus_fixed a b = (a + (2 ^ 64 - b % 2 ^ 64)) % 2 ^ 64

pub record BillingPeriod : Type 0 where
  pub start_at : ℕ
  pub end_at : ℕ

pub record BalanceOverview : Type 0 where
  pub available_balance : Fixed8
  pub cash_balance : Fixed8
  pub present_balance : Fixed8
  pub credit_line : Fixed8
  pub unpaid_money : Fixed8
  pub estimated_bills_money : Fixed8
  pub currency : String

pub record BalanceData : Type 0 where
  pub available_balance : Option Fixed8
  pub balance : Option Fixed8
  pub cash_balance : Option Fixed8
  pub present_balance : Option Fixed8
  pub credit_line : Option Fixed8
  pub unpaid_money : Option Fixed8
  pub estimated_bills_money : Option Fixed8
  pub currency : String

abbrev pub fixed8_or_zero : Option Fixed8 → Fixed8
fixed8_or_zero none = 0
fixed8_or_zero (some value) = value

-- The tests on `available_balance` and `balance`, and the choice between them.
unfoldable pub available : Option Fixed8 → Option Fixed8 → Result BillingError Fixed8
available none none = err missing_fields
available none (some b) = ok b
available (some a) none = ok a
available (some a) (some b) = if a == b then ok a else err conflicting_balance

-- `balanceData.value`
unfoldable pub balance_value : BalanceData → Result BillingError BalanceOverview
unfolding available
balance_value data_in = do
  available_balance ← available data_in.available_balance data_in.balance
  unpaid ← or_fail data_in.unpaid_money missing_fields
  refuse_if (str_eq data_in.currency "") missing_fields
  ok (record {
    available_balance = available_balance;
    cash_balance = fixed8_or_zero data_in.cash_balance;
    present_balance = fixed8_or_zero data_in.present_balance;
    credit_line = fixed8_or_zero data_in.credit_line;
    unpaid_money = unpaid;
    estimated_bills_money = fixed8_or_zero data_in.estimated_bills_money;
    currency = data_in.currency;
  })

pub record BillSnapshot : Type 0 where
  pub total_money : Fixed8
  pub currency : String

pub record BillItem : Type 0 where
  pub start_at : ℕ
  pub end_at : ℕ
  pub item_money : Fixed8
  pub currency : String
  pub bill_period : String

pub record BillDetail : Type 0 where
  pub total_money : Fixed8
  pub currency : String
  pub items : List BillItem

-- An element of the field `list`, its times as parseBillingItemTime reads them.
pub record RawItem : Type 0 where
  pub start_at : Option ℕ
  pub end_at : Option ℕ
  pub item_money : Option Fixed8
  pub currency : String
  pub bill_period : String

pub record BillSummaryData : Type 0 where
  pub total_money : Option Fixed8
  pub currency : String
  pub raw_items : List RawItem

-- `validate`, and the total that it has made sure of.
unfoldable pub validated_total : BillSummaryData → Result BillingError Fixed8
validated_total data_in = do
  total ← or_fail data_in.total_money missing_fields
  refuse_if (str_eq data_in.currency "") missing_fields
  ok total

-- The body of the loop of `items`.
unfoldable pub bill_item : String → BillingPeriod → RawItem → Result BillingError BillItem
bill_item currency period raw = do
  start_at ← or_fail raw.start_at invalid_item
  end_at ← or_fail raw.end_at invalid_item
  item_money ← or_fail raw.item_money invalid_item
  refuse_if
      (not (str_eq raw.currency currency)
        || str_eq raw.bill_period ""
        || ltb start_at period.start_at
        || ltb period.end_at end_at
        || leb end_at start_at)
      invalid_item
  ok (record {
    start_at = start_at;
    end_at = end_at;
    item_money = item_money;
    currency = raw.currency;
    bill_period = raw.bill_period;
  })

unfoldable pub bill_items :
    String → BillingPeriod → List RawItem → Result BillingError (List BillItem)
unfolding bill_item
bill_items currency period [] = ok []
bill_items currency period (raw ∷ raws) = do
  item ← bill_item currency period raw
  behind ← bill_items currency period raws
  ok (item ∷ behind)

abbrev pub max_items : ℕ
max_items = 10_000

unfoldable pub items : BillSummaryData → BillingPeriod → Result BillingError (List BillItem)
unfolding bill_items
items data_in period = do
  refuse_if (ltb max_items (length data_in.raw_items)) too_many_items
  bill_items data_in.currency period data_in.raw_items

-- `BillSnapshot`, from the request on.
abbrev pub bill_snapshot : Result BillingError BillSummaryData → Result BillingError BillSnapshot
bill_snapshot response = do
  data_in ← response
  total ← validated_total data_in
  ok (record { total_money = total; currency = data_in.currency })
