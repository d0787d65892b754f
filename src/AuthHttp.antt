-- ===== src/AuthHttp.antt =====
-- internal/authhttp/client.go: the policy, and what an answer is read as. Of an answer the model
-- keeps what the code looks at: the status, the size of the body, the header Retry-After, and what
-- encoding/json gives for the body's field `code`, which are parameters of the model.
pub mod Slots
pub mod Exchange
pub mod Policies
mod Examples
use qiniu_exporter.Base.{
  Bool, List, Option, String, [], false, if◌then◌else◌, leb, ltb, none, not, some, str_eq, true, ℕ,
  ◌%◌, ◌&&◌, ◌*◌, ◌+◌, ◌-◌, ◌==◌, ◌^◌, ◌||◌, ◌∷◌,
}
use qiniu_exporter.Base.Int.{ltb_ℤ, negsuc, pos, ℤ}
use qiniu_exporter.Base.Result.{Result, err, ok, refuse_if, ◌>>◌}
use qiniu_exporter.Base.Sorting.{codes}
use qiniu_exporter.Base.Texts.{same_codes}
use qiniu_exporter.Base.Time.{max_duration, second}
use qiniu_exporter.Cdn.{same_ℤ}

pub data ClientError : Type 0 where
  no_credentials not_allowed not_replayable replay_failed cancelled sign_failed : ClientError
  transport_failed nil_response read_failed too_large : ClientError

pub record Endpoint : Type 0 where
  pub method : String
  pub path : String
  pub name : String

pub record Policy : Type 0 where
  pub host : String
  pub endpoints : List Endpoint

-- `host_header` is `req.Host`; the body is none, or says whether GetBody is there.
pub record Request : Type 0 where
  pub scheme : String
  pub url_host : String
  pub host_header : String
  pub method : String
  pub path : String
  pub replayable_body : Option Bool

-- The simple case folding, as far as a comparison with an ASCII text needs it: U+017F folds to s
-- and U+212A to k.
abbrev pub fold : ℕ → ℕ
fold c =
    if leb b'A' c && leb c b'Z'
    then c + 32
    else if c == 383
    then b's'
    else if c == 8490
    then b'k'
    else c

unfoldable pub folds_to : List ℕ → List ℕ → Bool
folds_to [] [] = true
folds_to (c ∷ s) (d ∷ t) = fold c == fold d && folds_to s t
folds_to _ _ = false

-- `strings.EqualFold`
abbrev pub equal_fold : String → String → Bool
equal_fold a b = folds_to (codes a) (codes b)

unfoldable pub find_endpoint : Request → List Endpoint → Result ClientError String
find_endpoint req [] = err not_allowed
find_endpoint req (e ∷ es) =
    let later = find_endpoint req es in
    if str_eq req.method e.method && str_eq req.path e.path then ok e.name else later

-- `Policy.endpoint`
unfoldable pub endpoint : Policy → Request → Result ClientError String
unfolding find_endpoint
endpoint p req = do
  refuse_if (not (equal_fold req.scheme "https")) not_allowed
  refuse_if (not (equal_fold req.url_host p.host)) not_allowed
  refuse_if (not (str_eq req.host_header "") && not (equal_fold req.host_header p.host)) not_allowed
  find_endpoint req p.endpoints

-- `business_code` is what `inspectBusinessCode` unmarshals: none where that fails, and in it none
-- where the field is missing. `raw_code` is the raw message of `inspectRateLimit`. `date_delay` is
-- `time.Until` of the header read as an HTTP date.
pub record Response : Type 0 where
  pub status : ℕ
  pub body_size : ℕ
  pub business_code : Option (Option ℤ)
  pub raw_code : Option String
  pub retry_after : String
  pub date_delay : Option ℤ

abbrev pub max_observed_body : ℕ
max_observed_body = 33_554_432

unfoldable pub classify : Response → String
classify resp =
    if resp.status == 429
    then "rate_limited"
    else if leb 500 resp.status
    then "http_5xx"
    else if leb 400 resp.status
    then "http_4xx"
    else "success"

abbrev is_digit : ℕ → Bool
is_digit c = leb b'0' c && leb c b'9'

unfoldable pub digits : ℕ → List ℕ → Option ℕ
digits total [] = some total
digits total (c ∷ s) =
    let behind = digits (total * 10 + (c - b'0')) s in if is_digit c then behind else none

abbrev digits_of : List ℕ → Option ℕ
digits_of [] = none
digits_of (c ∷ s) = digits 0 (c ∷ s)

abbrev unsigned : List ℕ → List ℕ
unsigned [] = []
unsigned (c ∷ s) = if c == b'+' || c == b'-' then s else c ∷ s

abbrev is_negative : List ℕ → Bool
is_negative [] = false
is_negative (c ∷ s) = c == b'-'

-- `strconv.Atoi` where its result is at least 0: an optional plus sign and digits, or a zero with a
-- minus sign, in the range of an int64.
unfoldable pub atoi : List ℕ → Option ℕ
unfolding digits
atoi s = elim (digits_of (unsigned s)) [
  | none ↦ none
  | some n ↦ (if leb n max_duration && (not (is_negative s) || n == 0) then some n else none)
]

-- A product of int64 as Go computes it, for factors of at least 0.
abbrev pub wrap_int64 : ℕ → ℤ
wrap_int64 n = let m = n % 2 ^ 64 in if ltb m (2 ^ 63) then pos m else negsuc (2 ^ 64 - m - 1)

unfoldable pub parse_retry_after : String → Option ℤ → ℤ
unfolding atoi
parse_retry_after value date_delay = if str_eq value "" then pos 0 else elim (atoi (codes value)) [
  | some seconds ↦ wrap_int64 (seconds * second)
  | none ↦ elim date_delay [
    | none ↦ pos 0
    | some delay ↦ (if ltb_ℤ (pos 0) delay then delay else pos 0)
  ]
]

-- `strings.Trim(s, "\"")` on the left, and on the right of what is left.
unfoldable pub trim_left : List ℕ → List ℕ
trim_left [] = []
trim_left (c ∷ s) = let behind = trim_left s in if c == b'"' then behind else c ∷ s

abbrev trim_end : ℕ → List ℕ → List ℕ
trim_end c [] = if c == b'"' then [] else c ∷ []
trim_end c (d ∷ s) = c ∷ d ∷ s

unfoldable pub trim_right : List ℕ → List ℕ
trim_right [] = []
trim_right (c ∷ s) = trim_end c (trim_right s)

abbrev pub rate_limit_code : String
rate_limit_code = "403024"

unfoldable pub inspect_rate_limit : Response → Bool × ℤ
unfolding trim_left trim_right parse_retry_after
inspect_rate_limit resp =
    let limited =
      if resp.status == 403
      then elim resp.raw_code [
        | none ↦ false
        | some code ↦ same_codes (trim_right (trim_left (codes code))) (codes rate_limit_code)
      ]
      else resp.status == 429 in
    (limited, parse_retry_after resp.retry_after resp.date_delay)

-- The code of the business envelope, where one is expected.
abbrev judge_business : Option ℤ → Option (Option ℤ) → String → Bool → String × Bool
judge_business none business result limited = (result, limited)
judge_business (some expected) none result limited = ("decode_error", limited)
judge_business (some expected) (some none) result limited = ("decode_error", limited)
judge_business (some expected) (some (some code)) result limited =
    if same_ℤ code expected
    then (result, limited)
    else ("api_error", same_ℤ code (pos 403024) || limited)

-- The result that an attempt is observed with, and whether the answer says that the rate is limited.
unfoldable pub judge : Option ℤ → Response → String × Bool
unfolding inspect_rate_limit classify
judge expected resp =
    let limited = (inspect_rate_limit resp).0 in
    let (result, limited') =
      if leb 200 resp.status && ltb resp.status 300
      then judge_business expected resp.business_code (classify resp) limited
      else (classify resp, limited) in
    (if limited' then "rate_limited" else result, limited')
