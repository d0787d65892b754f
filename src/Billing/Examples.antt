-- ===== src/Billing/Examples.antt =====
-- Runs of the billing parts.
use qiniu_exporter.Base.{
  All, List, Option, [], arith, length, none, refl, some, true, ℕ, ◌*◌, ◌+◌, ◌-◌, ◌<◌, ◌∷◌, ◌≡◌,
  ◌≤◌, ◌⊎◌,
}
use qiniu_exporter.Base.Calendar.Dates.{date_of, month_start, month_walk}
use qiniu_exporter.Base.Calendar.Years.{year_split}
use qiniu_exporter.Base.Int.{pos}
use qiniu_exporter.Base.Result.{Result, err, ok}
use qiniu_exporter.Base.Texts.{any_code, byte_length, has_key, same_codes}
use qiniu_exporter.Base.Time.{day, hour, minute}
use qiniu_exporter.Billing.{
  items, BillDetail, BillSnapshot, BillSummaryData, BillingError, BillingPeriod, available,
  balance_value, bill_item, bill_items, conflicting_balance, duplicate_labels, max_items, transport,
  validated_total,
}
use qiniu_exporter.Billing.Daily.{Snapshots, collect_daily_estimates, validate_currency}
use qiniu_exporter.Billing.Daily.Totals.{IsTotal, collect_daily_estimates-IsTotal}
use qiniu_exporter.Billing.Details.{IsItem, bill_detail, bill_detail-IsItem}
use qiniu_exporter.Billing.History.{
  FinalizedCollection, Months, collect_finalized, collect_periods, fetch_history, fetch_month,
  gather, no_months, request_month,
}
use qiniu_exporter.Billing.History.Complete.{IsComplete, collect_finalized-IsComplete}
use qiniu_exporter.Billing.History.Resumed.{collect_periods-again}
use qiniu_exporter.Billing.Packs.{
  Paged, ResourcePack, allowed_keys, bad_label, check_packs, labels_of, packs_from,
  resource_pack_month_overview, resource_pack_month_overview-Paged, validate_resource_packs,
}
use qiniu_exporter.Billing.Schedule.{
  add_month, last_12_finalized_periods, local_clock, local_day, midnight, month_period,
  next_shanghai_time, select_periods, valid_monthly_period,
}
use qiniu_exporter.Billing.Schedule.Periods.{IsSelection, select_periods-IsSelection}
use qiniu_exporter.Billing.Schedule.Runs.{
  last_12-months_from, months_from, next_shanghai_time-lands,
}

-- 2026-03-03 06:00 in Asia/Shanghai, before the snapshot of the day.
abbrev march : ℕ
march = midnight 885_774 + 6 * hour

march_is : date_of (local_day march) ≡ (29_102, 3)
unfolding date_of year_split month_walk
march_is = refl

-- On the third of a month the month before last is the finalized one, and yesterday's snapshot is
-- the ready one.
march_selected : select_periods march ≡ record {
  snapshot_date = midnight (local_day march - 1);
  snapshot_ready = true;
  finalized = month_period 29_100;
}
unfolding select_periods date_of year_split month_walk month_start
march_selected = refl

select_periods-IsSelection_example : IsSelection march (select_periods march)
select_periods-IsSelection_example = select_periods-IsSelection march (omega arith)

last_12-months_from_example :
    (k : ℕ) × ((select_periods march).finalized ≡ month_period (k + 11))
    × (last_12_finalized_periods march ≡ some (months_from k 12))
    × All (λ p. valid_monthly_period p ≡ true) (months_from k 12)
last_12-months_from_example = last_12-months_from march (omega arith)

next_shanghai_time-lands_example :
    (0 < next_shanghai_time 8 15 march)
    × (next_shanghai_time 8 15 march ≤ day)
    × (local_clock (march + next_shanghai_time 8 15 march) ≡ 8 * hour + 15 * minute)
next_shanghai_time-lands_example =
    next_shanghai_time-lands 8 15 march (omega arith) (omega arith) (omega arith)

-- The totals of the snapshots of a month: ten for each day before.
abbrev growing : ℕ → Result BillingError BillSnapshot
growing date = ok (record { total_money = (date - 885_771) * 10; currency = "CNY" })

abbrev nothing_kept : Snapshots
nothing_kept d = none

abbrev today : ℕ
today = local_day march

collect_daily_estimates-IsTotal_example :
    (((date_of today).1 ≡ 1)
      × (collect_daily_estimates growing today nothing_kept ≡ (nothing_kept, ok [])))
    ⊎ ((1 < (date_of today).1)
        × IsTotal today
            ((date_of today).1 - 1)
            (month_start (date_of today).0)
            (collect_daily_estimates growing today nothing_kept))
collect_daily_estimates-IsTotal_example = collect_daily_estimates-IsTotal growing today nothing_kept

abbrev plain_detail : BillingPeriod → Result BillingError BillDetail
plain_detail period = ok (record { total_money = 5; currency = "CNY"; items = [] })

abbrev failing_detail : BillingPeriod → Result BillingError BillDetail
failing_detail period = err transport

abbrev two_months : List BillingPeriod
two_months = month_period 29_099 ∷ month_period 29_100 ∷ []

collect_periods-again_example :
    collect_periods failing_detail two_months
      (march + day)
      (collect_periods plain_detail two_months march no_months).0
    ≡ collect_periods plain_detail two_months march no_months
unfolding collect_periods fetch_history fetch_month request_month validate_currency gather
    select_periods date_of year_split month_walk month_start
collect_periods-again_example =
    collect_periods-again plain_detail failing_detail two_months march (march + day) no_months refl
      refl

collect_finalized-IsComplete_example :
    (periods : List BillingPeriod) × (out : Months × FinalizedCollection × Option BillingError)
    × (last_12_finalized_periods march ≡ some periods)
    × (length periods ≡ 12)
    × (collect_finalized plain_detail march no_months ≡ some out)
    × IsComplete plain_detail no_months periods (select_periods march).finalized out
collect_finalized-IsComplete_example =
    collect_finalized-IsComplete plain_detail march no_months (omega arith)

abbrev a_pack : ResourcePack
a_pack = record {
  item_name = "space";
  zone_name = "z0";
  available_time = "all";
  total_surplus = pos 10;
  month_used = pos 3;
  month_remain = pos 7;
  unit = "GB";
}

abbrev one_page : ℕ → Result BillingError (List ResourcePack)
one_page n = ok (a_pack ∷ [])

resource_pack_month_overview-Paged_example : Paged one_page 1 (a_pack ∷ [])
unfolding resource_pack_month_overview packs_from
resource_pack_month_overview-Paged_example =
    resource_pack_month_overview-Paged one_page {result = a_pack ∷ []} refl

pack_accepted : validate_resource_packs (a_pack ∷ []) (labels_of a_pack ∷ []) ≡ ok tt
unfolding validate_resource_packs check_packs allowed_keys bad_label has_key same_codes any_code
    byte_length
pack_accepted = refl

pack_twice :
    validate_resource_packs (a_pack ∷ a_pack ∷ []) (labels_of a_pack ∷ []) ≡ err duplicate_labels
unfolding validate_resource_packs check_packs allowed_keys bad_label has_key same_codes any_code
    byte_length
pack_twice = refl

balance_conflict :
    balance_value (record {
      available_balance = some 3;
      balance = some 4;
      cash_balance = none;
      present_balance = none;
      credit_line = none;
      unpaid_money = some 0;
      estimated_bills_money = none;
      currency = "CNY";
    })
    ≡ err conflicting_balance
unfolding balance_value available
balance_conflict = refl

-- A statement of February 2026 with one item, of its first day.
abbrev february : BillingPeriod
february = month_period 29_101

abbrev statement : BillingPeriod → Result BillingError BillSummaryData
statement period = ok (record {
  total_money = some 7;
  currency = "CNY";
  raw_items =
      (record {
        start_at = some period.start_at;
        end_at = some (period.start_at + day);
        item_money = some 7;
        currency = "CNY";
        bill_period = "daily";
      })
      ∷ [];
})

abbrev detail : BillDetail
detail = record {
  total_money = 7;
  currency = "CNY";
  items =
      (record {
        start_at = february.start_at;
        end_at = february.start_at + day;
        item_money = 7;
        currency = "CNY";
        bill_period = "daily";
      })
      ∷ [];
}

bill_detail-IsItem_example :
    (valid_monthly_period february ≡ true)
    × All (IsItem detail.currency february) detail.items
    × (length detail.items ≤ max_items)
unfolding bill_detail items bill_items bill_item validated_total valid_monthly_period add_month
    date_of year_split month_walk month_start
bill_detail-IsItem_example = bill_detail-IsItem statement february {detail = detail} refl
