-- ===== src/AuthHttp/Exchange/Tried.antt =====
-- How often one attempt sends the request, and when it asks for another one.
use qiniu_exporter.AuthHttp.{
  ClientError, Response, cancelled, inspect_rate_limit, judge, max_observed_body, read_failed,
  replay_failed, sign_failed, too_large, transport_failed,
}
use qiniu_exporter.AuthHttp.Exchange.{
  Client, Observation, Reply, State, Trip, Verdict, again, answer, api_request, failed, free,
  limiter_wait, no_response, observe, rate_limited_event, read_failure, responded, run_attempt,
  sent, settle, settle_answer, settle_error, slow_down, transport_failure, unreturned, use_slots,
  waited, wants_retry,
}
use qiniu_exporter.AuthHttp.Slots.{Taking, limit_rates, take_slots}
use qiniu_exporter.Base.{
  Bool, List, String, [], ap, arith, false, if◌then◌else◌, ltb, refl, suc, true, ℕ, ◌&&◌, ◌==◌, ◌∙◌,
  ◌∷◌, ◌≡◌, ◌≤◌,
}
use qiniu_exporter.Base.Floats.{Floats}
use qiniu_exporter.Base.Result.{err, ok}
use qiniu_exporter.Limiter.{acquired, cancelled_err, waiting}

abbrev is_sent : Observation → Bool
is_sent sent = true
is_sent _ = false

-- The requests sent so far.
unfoldable pub sents : List Observation → ℕ
sents [] = 0
sents (e ∷ es) = let before = sents es in if is_sent e then suc before else before

observe-sents :
    {F : Type 0} (c : Client) (e : Observation) (s : State F)
    → is_sent e ≡ false
    → sents (observe c e s).events ≡ sents s.events
unfolding observe sents
observe-sents c e s q = ground arith

-- After an attempt that began with k requests sent.
abbrev pub IsTried : {F : Type 0} → Client → Bool → ℕ → Verdict × State F → Type 0
IsTried c may_retry k (again, s) = (may_retry ≡ true) × (sents s.events ≡ suc k)
IsTried c may_retry k (responded resp, s) =
    (may_retry && wants_retry c resp ≡ false) × (sents s.events ≡ suc k)
IsTried c may_retry k (failed e, s) = sents s.events ≤ suc k
IsTried c may_retry k (unreturned, s) = sents s.events ≤ suc k

if-IsTried :
    {F : Type 0} (c : Client) (m : Bool) (k : ℕ) (b : Bool) (r r' : Verdict × State F)
    → (b ≡ true → IsTried c m k r)
    → (b ≡ false → IsTried c m k r')
    → IsTried c m k (if b then r else r')
if-IsTried c m k true r r' h h' = h refl
if-IsTried c m k false r r' h h' = h' refl

module _ {F : Type 0} (fl : Floats F) (c : Client) (name : String) (k : ℕ) where
  settle_error-IsTried :
      (t : Trip) (m : Bool) (e : ClientError) (held : List ℕ) (s : State F)
      → sents s.events ≡ suc k
      → IsTried c m k (settle_error fl c name t m e held s)
  unfolding settle_error
  settle_error-IsTried t m e held s h =
      let s' = observe c (api_request name "transport_error") (free held s) in
      let q : sents s'.events ≡ suc k =
        observe-sents c (api_request name "transport_error") (free held s) refl ∙ h in
      if-IsTried c m k t.gone (failed cancelled, s') (if m then (again, s') else (failed e, s'))
        (λ _. omega (arith, q))
        (λ _. if-IsTried c m k m (again, s') (failed e, s') (λ b. (b, q)) (λ _. omega (arith, q)))

  slow_down-sents :
      (t : Trip) (resp : Response) (b : Bool) (s : State F)
      → sents (if b then slow_down fl c t resp s else s).events ≡ sents s.events
  unfolding slow_down
  slow_down-sents t resp true s =
      observe-sents c rate_limited_event
        (record s {
          store = limit_rates fl c.limiters t.limited_at (inspect_rate_limit resp).1 s.store;
        })
        refl
  slow_down-sents t resp false s = refl

  settle_answer-IsTried :
      (t : Trip) (m : Bool) (resp : Response) (held : List ℕ) (s : State F)
      → sents s.events ≡ suc k
      → IsTried c m k (settle_answer fl c name t m resp held s)
  unfolding settle_answer
  settle_answer-IsTried t m resp held s h =
      let (result, is_limited) = judge c.expected_business_code resp in
      let observed = observe c (api_request name result) s in
      let s' = if is_limited then slow_down fl c t resp observed else observed in
      let q : sents s'.events ≡ suc k =
        slow_down-sents t resp is_limited observed
        ∙ observe-sents c (api_request name result) s refl
        ∙ h in
      if-IsTried c m k (m && wants_retry c resp) (again, free held s')
        (responded resp, free held s') (λ b. (ground (arith, b), q)) (λ b. (b, q))

  settle-IsTried :
      (t : Trip) (m : Bool) (r : Reply) (held : List ℕ) (s : State F)
      → sents s.events ≡ suc k
      → IsTried c m k (settle fl c name t m r held s)
  unfolding settle
  settle-IsTried t m transport_failure held s h = settle_error-IsTried t m transport_failed held s h
  settle-IsTried t m read_failure held s h = settle_error-IsTried t m read_failed held s h
  settle-IsTried t m no_response held s h =
      omega (arith, observe-sents c (api_request name "transport_error") (free held s) refl, h)
  settle-IsTried t m (answer resp) held s h =
      if-IsTried c m k (ltb max_observed_body resp.body_size)
        (failed too_large, observe c (api_request name "decode_error") (free held s))
        (settle_answer fl c name t m resp held s)
        (λ _.
          omega (arith, observe-sents c (api_request name "decode_error") (free held s) refl, h))
        (λ _. settle_answer-IsTried t m resp held s h)

  waited-sents : (b : Bool) (s : State F) → sents (waited c b s).events ≡ sents s.events
  waited-sents true s = observe-sents c limiter_wait s refl
  waited-sents false s = refl

  use_slots-IsTried :
      (t : Trip) (m : Bool) (s : State F) (r : Taking F)
      → sents s.events ≡ k
      → IsTried c m k (use_slots fl c name t m s r)
  unfolding sents
  use_slots-IsTried t m s (err (cancelled_err, h)) q =
      omega (arith, waited-sents h.has_limiter (record s { store = h.store }), q)
  use_slots-IsTried t m s (err (waiting, h)) q = omega (arith, q)
  use_slots-IsTried t m s (err (acquired, h)) q = omega (arith, q)
  use_slots-IsTried t m s (ok h) q =
      let s' = waited c h.has_limiter (record s { store = h.store }) in
      let same : sents s'.events ≡ k =
        waited-sents h.has_limiter (record s { store = h.store }) ∙ q in
      if-IsTried c m k t.sign_fails (failed sign_failed, free h.held s')
        (settle fl c name t m t.reply h.held (record s' { events = sent ∷ s'.events }))
        (λ _. omega (arith, same))
        (λ _.
          settle-IsTried t m t.reply h.held (record s' { events = sent ∷ s'.events }) (ap suc same))

  pub run_attempt-IsTried :
      (t : Trip) (n : ℕ) (m : Bool) (s : State F)
      → sents s.events ≡ k
      → IsTried c m k (run_attempt fl c name t n m s)
  unfolding run_attempt
  run_attempt-IsTried t n m s q =
      if-IsTried c m k (ltb 0 n && t.backoff_cancelled) (failed cancelled, s) _
        (λ _. omega (arith, q))
        (λ _.
          if-IsTried c m k t.replay_fails (failed replay_failed, s) _ (λ _. omega (arith, q))
            (λ _. use_slots-IsTried t m s (take_slots fl c.limiters t.visits (n == 0) s.store) q))
