-- ===== src/Cdn/Queries.antt =====
-- The queries of internal/qiniu/cdn/client.go and the checks on them before a request is made.
use qiniu_exporter.Base.{
  All, List, Option-cases, String, arith, eq_iff, inl, inr, length, not, some, str_eq, ℕ, ◌&&◌, ◌*◌,
  ◌+◌, ◌<◌, ◌||◌, ◌≡◌, ◌≤◌, ◌⊎◌,
}
use qiniu_exporter.Base.Calendar.Layouts.{date_layout, parse_in_location}
use qiniu_exporter.Base.Result.{>>=-eq-ok, Result, ok, refuse_if, ◌>>◌}
use qiniu_exporter.Base.Sorting.{codes}
use qiniu_exporter.Base.Texts.{has_outer_space}
use qiniu_exporter.Base.Time.{day}
use qiniu_exporter.Cdn.{CdnError, invalid_input, max_analytics_domains}
use qiniu_exporter.Cdn.Names.{
  IsDistinct, contains_control, validate_date_range, validate_domain, validate_domains,
  validate_domains-IsDistinct, validate_usage_domains,
}
use qiniu_exporter.Cdn.Select.{region_china, region_global, region_oversea}
use qiniu_exporter.Cdn.Usage.{Granularity, is_valid}

pub record MonitoringQuery : Type 0 where
  pub domains : List String
  pub start_date : String
  pub end_date : String

pub record MeteringQuery : Type 0 where
  pub domains : List String
  pub start_date : String
  pub end_date : String
  pub granularity : Granularity

pub record DomainQuery : Type 0 where
  pub domain : String
  pub start_date : String
  pub end_date : String

pub record RegionalDomainQuery : Type 0 where
  pub domain_query : DomainQuery
  pub region : String

pub record TopIpQuery : Type 0 where
  pub domains : List String
  pub start_date : String
  pub end_date : String
  pub region : String

unfoldable pub validate_monitoring_query : MonitoringQuery → Result CdnError (Unit {0})
validate_monitoring_query query = do
  validate_usage_domains query.domains
  validate_date_range query.start_date query.end_date 31

unfoldable pub validate_metering_query : MeteringQuery → Result CdnError (Unit {0})
validate_metering_query query = do
  validate_usage_domains query.domains
  refuse_if (not (is_valid query.granularity)) invalid_input
  validate_date_range query.start_date query.end_date 31

unfoldable pub validate_domain_query : DomainQuery → Result CdnError (Unit {0})
validate_domain_query query = do
  validate_domain query.domain
  validate_date_range query.start_date query.end_date 30

unfoldable pub validate_regional_domain_query : RegionalDomainQuery → Result CdnError (Unit {0})
unfolding validate_domain_query
validate_regional_domain_query query = do
  validate_domain_query query.domain_query
  refuse_if
      (str_eq query.region ""
        || has_outer_space (codes query.region)
        || contains_control (codes query.region))
      invalid_input

unfoldable pub validate_top_ip_query : TopIpQuery → Result CdnError (Unit {0})
validate_top_ip_query query = do
  validate_domains max_analytics_domains query.domains
  refuse_if
      (not (str_eq query.region region_global)
        && not (str_eq query.region region_china)
        && not (str_eq query.region region_oversea))
      invalid_input
  validate_date_range query.start_date query.end_date 30

-- Two dates of the calendar, in their order, that span at most so many days with both counted.
pub record IsDateRange (start_text end_text : String) (days : ℕ) : Type 0 where
  pub start : ℕ
  pub finish : ℕ
  pub start_reads : parse_in_location date_layout (record { offset = 0 }) start_text ≡ some start
  pub finish_reads : parse_in_location date_layout (record { offset = 0 }) end_text ≡ some finish
  pub ordered : start ≤ finish
  pub within : finish < start + days * day

validate_date_range-IsDateRange :
    (start_text end_text : String) (days : ℕ)
    → days ≤ 31
    → validate_date_range start_text end_text days ≡ ok tt
    → IsDateRange start_text end_text days
unfolding validate_date_range
validate_date_range-IsDateRange start_text end_text days few h =
    elim (Option-cases (parse_in_location date_layout (record { offset = 0 }) start_text)) [
      | inl e ↦ absurd (ground arith)
      | inr (s, e) ↦
          elim (Option-cases (parse_in_location date_layout (record { offset = 0 }) end_text)) [
            | inl e' ↦ absurd (ground arith)
            | inr (t, e') ↦ record {
              start = s;
              finish = t;
              start_reads = e;
              finish_reads = e';
              ordered = ground arith;
              within = ground arith;
            }
          ]
    ]

-- A query of top addresses is accepted only with 1 to 100 valid domains, none twice, one of the three
-- regions, and two dates in their order that span at most 30 days.
pub validate_top_ip_query-IsDateRange :
    (query : TopIpQuery)
    → validate_top_ip_query query ≡ ok tt
    → (0 < length query.domains)
      × (length query.domains ≤ 100)
      × IsDistinct query.domains
      × All (λ d. validate_domain d ≡ ok tt) query.domains
      × ((query.region ≡ region_global)
          ⊎ (query.region ≡ region_china)
          ⊎ (query.region ≡ region_oversea))
      × IsDateRange query.start_date query.end_date 30
unfolding validate_top_ip_query
validate_top_ip_query-IsDateRange query h =
    let (u, e, h1) = >>=-eq-ok (validate_domains max_analytics_domains query.domains) _ h in
    let (u', e', h2) =
      >>=-eq-ok
        (refuse_if
          (not (str_eq query.region region_global)
            && not (str_eq query.region region_china)
            && not (str_eq query.region region_oversea))
          invalid_input)
        _ h1 in
    let (some_, few, distinct, valid) =
      validate_domains-IsDistinct max_analytics_domains query.domains e in
    (
      some_,
      few,
      distinct,
      valid,
      ground (
        arith,
        eq_iff query.region region_global,
        eq_iff query.region region_china,
        eq_iff query.region region_oversea,
      ),
      validate_date_range-IsDateRange query.start_date query.end_date 30 (omega arith) h2,
    )
