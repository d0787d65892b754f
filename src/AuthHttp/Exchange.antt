-- ===== src/AuthHttp/Exchange.antt =====
-- `Client.Do`. Every call of the surroundings that an attempt makes is part of its exchange.
pub mod Tried
pub mod Attempts
pub mod Settled
pub mod Balance
use qiniu_exporter.AuthHttp.{
  ClientError, Policy, Request, Response, cancelled, endpoint, inspect_rate_limit, judge,
  max_observed_body, nil_response, no_credentials, not_replayable, read_failed, replay_failed,
  sign_failed, too_large, transport_failed,
}
use qiniu_exporter.AuthHttp.Slots.{
  Heap, Limiters, Taking, Visit, limit_rates, release_all, take_slots,
}
use qiniu_exporter.Base.{
  Bool, List, Option, String, false, if◌then◌else◌, leb, ltb, min, none, not, some, suc, true, zero,
  ℕ, ◌&&◌, ◌==◌, ◌||◌, ◌∷◌,
}
use qiniu_exporter.Base.Floats.{Floats}
use qiniu_exporter.Base.Int.{pos_part, ℤ}
use qiniu_exporter.Base.Result.{Result, err, ok, refuse_if, ◌>>=◌, ◌>>◌}
use qiniu_exporter.Limiter.{cancelled_err}

pub record Client : Type 0 where
  pub has_credentials : Bool
  pub policy : Policy
  pub limiters : Limiters
  pub has_observer : Bool
  pub max_retries : ℤ
  pub expected_business_code : Option ℤ

-- What RoundTrip and the reading of the body give.
pub data Reply : Type 0 where
  transport_failure no_response read_failure : Reply
  answer : Response → Reply

-- `gone` says whether the context has ended when an error makes the code ask it.
pub record Trip : Type 0 where
  pub backoff_cancelled : Bool
  pub replay_fails : Bool
  pub visits : ℕ → Visit
  pub sign_fails : Bool
  pub reply : Reply
  pub gone : Bool
  pub limited_at : ℕ → ℕ

-- A request sent, and the calls of the observer but for their durations.
pub data Observation : Type 0 where
  sent limiter_wait rate_limited_event : Observation
  api_request : String → String → Observation

-- The limiters, and what happened, the latest first.
pub record State (F : Type 0) : Type 0 where
  pub store : Heap F
  pub events : List Observation

-- How an attempt ends: with another one, with a return of `Do`, or not at all while an `Acquire`
-- waits.
pub data Verdict : Type 0 where
  again unreturned : Verdict
  responded : Response → Verdict
  failed : ClientError → Verdict

unfoldable pub observe : {F : Type 0} → Client → Observation → State F → State F
observe c e s = if c.has_observer then record s { events = e ∷ s.events } else s

abbrev pub free : {F : Type 0} → List ℕ → State F → State F
free held s = record s { store = release_all held s.store }

-- `attempt < retries && (rateLimited || resp.StatusCode >= 500)`
abbrev pub wants_retry : Client → Response → Bool
wants_retry c resp = (judge c.expected_business_code resp).1 || leb 500 resp.status

-- The call of `onRateLimited`.
unfoldable pub slow_down : {F : Type 0} → Floats F → Client → Trip → Response → State F → State F
unfolding observe inspect_rate_limit limit_rates
slow_down fl c t resp s = observe c rate_limited_event (record s {
  store = limit_rates fl c.limiters t.limited_at (inspect_rate_limit resp).1 s.store;
})

-- `observeWait`
abbrev pub waited : {F : Type 0} → Client → Bool → State F → State F
waited c has_limiter s = if has_limiter then observe c limiter_wait s else s

abbrev pub is_again : Verdict → Bool
is_again again = true
is_again _ = false

module _ {F : Type 0} (fl : Floats F) (c : Client) (name : String) where
  -- After an error of the transport or of the reading.
  unfoldable pub settle_error : Trip → Bool → ClientError → List ℕ → State F → Verdict × State F
  unfolding observe
  settle_error t may_retry e held s =
      let s' = observe c (api_request name "transport_error") (free held s) in
      if t.gone then (failed cancelled, s') else if may_retry then (again, s') else (failed e, s')

  -- After a body within the bound.
  unfoldable pub settle_answer : Trip → Bool → Response → List ℕ → State F → Verdict × State F
  unfolding slow_down judge
  settle_answer t may_retry resp held s =
      let (result, is_limited) = judge c.expected_business_code resp in
      let observed = observe c (api_request name result) s in
      let s' = free held (if is_limited then slow_down fl c t resp observed else observed) in
      if may_retry && wants_retry c resp then (again, s') else (responded resp, s')

  unfoldable pub settle : Trip → Bool → Reply → List ℕ → State F → Verdict × State F
  unfolding settle_error settle_answer observe
  settle t may_retry transport_failure held s = settle_error t may_retry transport_failed held s
  settle t may_retry read_failure held s = settle_error t may_retry read_failed held s
  settle t may_retry no_response held s =
      (failed nil_response, observe c (api_request name "transport_error") (free held s))
  settle t may_retry (answer resp) held s =
      let settled = settle_answer t may_retry resp held s in
      if ltb max_observed_body resp.body_size
      then (failed too_large, observe c (api_request name "decode_error") (free held s))
      else settled

  -- From the result of `acquire` on.
  abbrev pub use_slots : Trip → Bool → State F → Taking F → Verdict × State F
  use_slots t may_retry s (err (cancelled_err, h)) =
      (failed cancelled, waited c h.has_limiter (record s { store = h.store }))
  use_slots t may_retry s (err (outcome, h)) = (unreturned, record s { store = h.store })
  use_slots t may_retry s (ok h) =
      let s' = waited c h.has_limiter (record s { store = h.store }) in
      if t.sign_fails
      then (failed sign_failed, free h.held s')
      else settle t may_retry t.reply h.held (record s' { events = sent ∷ s'.events })

  -- The body of the loop, on the attempt n.
  unfoldable pub run_attempt : Trip → ℕ → Bool → State F → Verdict × State F
  unfolding settle take_slots
  run_attempt t n may_retry s =
      if ltb 0 n && t.backoff_cancelled
      then (failed cancelled, s)
      else if t.replay_fails
      then (failed replay_failed, s)
      else use_slots t may_retry s (take_slots fl c.limiters t.visits (n == 0) s.store)

  -- The loop from the attempt n on, with so many retries left.
  unfoldable pub run_attempts : (ℕ → Trip) → ℕ → ℕ → State F → Verdict × State F
  unfolding run_attempt
  run_attempts trips zero n s = run_attempt (trips n) n false s
  run_attempts trips (suc left) n s =
      let (v, s') = run_attempt (trips n) n true s in
      let later = run_attempts trips left (suc n) s' in if is_again v then later else (v, s')

-- `retries`
abbrev pub retries_of : ℤ → ℕ
retries_of max_retries = min (pos_part max_retries) 2

abbrev pub has_replayable_body : Request → Bool
has_replayable_body req = elim req.replayable_body [ none ↦ true | some replayable ↦ replayable ]

abbrev pub admit : Client → Request → Result ClientError String
admit c req = do
  refuse_if (not c.has_credentials) no_credentials
  name ← endpoint c.policy req
  refuse_if (not (has_replayable_body req)) not_replayable
  ok name

abbrev pub send_admitted :
    {F : Type 0}
    → Floats F
    → Client
    → (ℕ → Trip)
    → State F
    → Result ClientError String
    → Verdict × State F
send_admitted fl c trips s (err e) = (failed e, s)
send_admitted fl c trips s (ok name) = run_attempts fl c name trips (retries_of c.max_retries) 0 s

-- `Do`
unfoldable pub send_request :
    {F : Type 0} → Floats F → Client → Request → (ℕ → Trip) → State F → Verdict × State F
unfolding run_attempts endpoint
send_request fl c req trips s = send_admitted fl c trips s (admit c req)
