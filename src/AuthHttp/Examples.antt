-- ===== src/AuthHttp/Examples.antt =====
-- Runs of the client with numbers for float64.
use qiniu_exporter.AuthHttp.{
  Policy, Request, Response, atoi, classify, digits, endpoint, equal_fold, find_endpoint, folds_to,
  inspect_rate_limit, judge, parse_retry_after, trim_left, trim_right,
}
use qiniu_exporter.AuthHttp.Exchange.{
  Client, State, Trip, answer, has_replayable_body, observe, run_attempt, run_attempts,
  send_request, settle, settle_answer, settle_error, slow_down,
}
use qiniu_exporter.AuthHttp.Exchange.Attempts.{
  IsSpent, send_request-IsAllowed, send_request-IsSpent,
}
use qiniu_exporter.AuthHttp.Exchange.Balance.{send_request-IsReturned}
use qiniu_exporter.AuthHttp.Exchange.Settled.{IsReturned}
use qiniu_exporter.AuthHttp.Exchange.Tried.{sents}
use qiniu_exporter.AuthHttp.Policies.{IsAllowed}
use qiniu_exporter.AuthHttp.Slots.{holds, limit_rates, release_all, take_slot, take_slots}
use qiniu_exporter.AuthHttp.Slots.Asked.{limit_rates-at}
use qiniu_exporter.AuthHttp.Slots.Taken.{IsBalanced, take_slots-IsBalanced}
use qiniu_exporter.Base.{
  String, [], false, if◌then◌else◌, none, refl, some, true, ℕ, ◌*◌, ◌+◌, ◌==◌, ◌∷◌, ◌≡◌, ◌≤◌, ◌⊎◌,
}
use qiniu_exporter.Base.Floats.Whole.{Whole, fin, whole_floats}
use qiniu_exporter.Base.Int.{negsuc, pos}
use qiniu_exporter.Base.Texts.{same_codes}
use qiniu_exporter.Base.Time.{hour, second, zero_time}
use qiniu_exporter.Limiter.{
  acquire, allowed_at, new_limiter, on_rate_limited, pacing_interval, recover, take_or_delay,
  wait_for_rate,
}

abbrev statistics : Policy
statistics = record {
  host = "api.qiniuapi.com";
  endpoints = record { method = "GET"; path = "/v6/space"; name = "space" } ∷ [];
}

-- The limiter of the host is that of the endpoint.
abbrev shared : Client
shared = record {
  has_credentials = true;
  policy = statistics;
  limiters = record { first_attempt = some 1; retry = none; host = some 0; endpoint = some 0 };
  has_observer = true;
  max_retries = pos 5;
  expected_business_code = none;
}

abbrev asking : Request
asking = record {
  scheme = "HTTPS";
  url_host = "API.qiniuapi.com";
  host_header = "";
  method = "GET";
  path = "/v6/space";
  replayable_body = none;
}

abbrev answered : ℕ → Response
answered status = record {
  status = status;
  body_size = 2;
  business_code = none;
  raw_code = none;
  retry_after = "7";
  date_delay = none;
}

abbrev trip : ℕ → Trip
trip n = record {
  backoff_cancelled = false;
  replay_fails = false;
  visits = λ i. record {
    is_done = false;
    entered = true;
    rounds =
        record { cancelled = false; now = zero_time + n * hour; cancelled_waiting = false } ∷ [];
  };
  sign_fails = false;
  reply = answer (answered (if n == 0 then 429 else 503));
  gone = false;
  limited_at = λ i. zero_time + n * hour;
}

abbrev idle : State Whole
idle = record { store = λ i. new_limiter whole_floats (fin 64) (some 2); events = [] }

-- Two retries at most, of the five that are configured.
three_sent : sents (send_request whole_floats shared asking trip idle).1.events ≡ 3
unfolding send_request run_attempts run_attempt endpoint find_endpoint folds_to take_slots take_slot
    holds acquire wait_for_rate take_or_delay recover allowed_at pacing_interval settle settle_error
    settle_answer slow_down limit_rates on_rate_limited observe judge classify inspect_rate_limit
    parse_retry_after atoi digits trim_left trim_right same_codes release_all sents
three_sent = refl

send_request-IsReturned_example :
    IsReturned idle.store (send_request whole_floats shared asking trip idle)
send_request-IsReturned_example = send_request-IsReturned whole_floats shared asking trip idle

send_request-IsSpent_example :
    IsSpent shared 2 0 (send_request whole_floats shared asking trip idle) × (2 ≤ 2)
unfolding sents
send_request-IsSpent_example = send_request-IsSpent whole_floats shared asking trip idle

send_request-IsAllowed_example :
    (shared.has_credentials ≡ true)
    × (has_replayable_body asking ≡ true)
    × (equal_fold "HTTPS" "https" ≡ true)
    × (equal_fold "API.qiniuapi.com" "api.qiniuapi.com" ≡ true)
    × ((asking.host_header ≡ "") ⊎ (equal_fold "" "api.qiniuapi.com" ≡ true))
    × (name : String) × IsAllowed statistics asking name
unfolding send_request run_attempts run_attempt endpoint find_endpoint folds_to take_slots take_slot
    holds acquire wait_for_rate take_or_delay recover allowed_at pacing_interval settle settle_error
    settle_answer slow_down limit_rates on_rate_limited observe judge classify inspect_rate_limit
    parse_retry_after atoi digits trim_left trim_right same_codes release_all sents
send_request-IsAllowed_example =
    send_request-IsAllowed whole_floats shared asking trip idle (λ e. cc)

take_slots-IsBalanced_example :
    IsBalanced idle.store (take_slots whole_floats shared.limiters (trip 0).visits true idle.store)
take_slots-IsBalanced_example =
    take_slots-IsBalanced whole_floats shared.limiters (trip 0).visits true idle.store

limit_rates-at_example :
    limit_rates whole_floats shared.limiters (trip 0).limited_at (pos second) idle.store 0
    ≡ on_rate_limited whole_floats
        (new_limiter whole_floats (fin 64) (some 2))
        zero_time
        (pos second)
limit_rates-at_example =
    limit_rates-at whole_floats shared.limiters (trip 0).limited_at (pos second) idle.store 0

-- A number of seconds that a Duration cannot hold wraps to a negative delay.
long_delay : parse_retry_after "9223372037" none ≡ negsuc 9_223_372_036_709_551_615
unfolding parse_retry_after atoi digits
long_delay = refl

plus_delay : parse_retry_after "+7" none ≡ pos 7_000_000_000
unfolding parse_retry_after atoi digits
plus_delay = refl
