-- ===== src/AuthHttp/Exchange/Settled.antt =====
-- What one attempt leaves of the slots, once they are taken.
use qiniu_exporter.AuthHttp.{
  ClientError, Response, cancelled, inspect_rate_limit, judge, max_observed_body, read_failed,
  sign_failed, too_large, transport_failed,
}
use qiniu_exporter.AuthHttp.Exchange.{
  Client, Observation, Reply, State, Trip, Verdict, again, answer, api_request, failed, free,
  limiter_wait, no_response, observe, rate_limited_event, read_failure, responded, sent, settle,
  settle_answer, settle_error, slow_down, transport_failure, unreturned, use_slots, waited,
  wants_retry,
}
use qiniu_exporter.AuthHttp.Slots.{Heap, Taking, holds, limit_rates}
use qiniu_exporter.AuthHttp.Slots.Asked.{limit_rates-at}
use qiniu_exporter.AuthHttp.Slots.Held.{AreHeld, SameSlots, release_all-SameSlots, unheld}
use qiniu_exporter.AuthHttp.Slots.Taken.{IsBalanced}
use qiniu_exporter.Base.{
  Bool, List, String, arith, false, if◌then◌else◌, ltb, refl, subst, sym, true, ℕ, ◌&&◌, ◌∙◌, ◌∷◌,
  ◌≡◌,
}
use qiniu_exporter.Base.Floats.{Floats}
use qiniu_exporter.Base.Int.{ℤ}
use qiniu_exporter.Base.Result.{err, ok}
use qiniu_exporter.Limiter.{Limiter, acquired, cancelled_err, on_rate_limited, waiting}

unheld-same :
    {F : Type 0} (b : Bool) (l l' : Limiter F)
    → l.capacity ≡ l'.capacity
    → l.held ≡ l'.held
    → unheld b l ≡ unheld b l'
unheld-same true l l' cap slots = ground (arith, cap, slots)
unheld-same false l l' cap slots = slots

observe-store :
    {F : Type 0} (c : Client) (e : Observation) (s : State F) → (observe c e s).store ≡ s.store
unfolding observe
observe-store c e s = ground arith

SameSlots-observe :
    {F : Type 0} (c : Client) (e : Observation) (s : State F) (before : Heap F)
    → SameSlots s.store before
    → SameSlots (observe c e s).store before
SameSlots-observe c e s before h =
    subst (λ (store : Heap _). SameSlots store before) (sym (observe-store c e s)) h

-- What every return of `Do` leaves; `again` goes on from there.
abbrev pub IsReturned : {F : Type 0} → Heap F → Verdict × State F → Type 0
IsReturned before (unreturned, s) = Unit
IsReturned before (again, s) = SameSlots s.store before
IsReturned before (responded resp, s) = SameSlots s.store before
IsReturned before (failed e, s) = SameSlots s.store before

pub if-IsReturned :
    {F : Type 0} (before : Heap F) (b : Bool) (r r' : Verdict × State F)
    → IsReturned before r
    → IsReturned before r'
    → IsReturned before (if b then r else r')
if-IsReturned before true r r' h h' = h
if-IsReturned before false r r' h h' = h'

module _ {F : Type 0} (fl : Floats F) (c : Client) (name : String) (before : Heap F) where
  limit_rates-AreHeld :
      (limited_at : ℕ → ℕ) (d : ℤ) (held : List ℕ) (store : Heap F)
      → AreHeld before held store
      → AreHeld before held (limit_rates fl c.limiters limited_at d store)
  unfolding on_rate_limited
  limit_rates-AreHeld limited_at d held store h =
      let kept : (i : ℕ)
          → ((limit_rates fl c.limiters limited_at d store i).capacity ≡ (store i).capacity)
            × ((limit_rates fl c.limiters limited_at d store i).held ≡ (store i).held) =
        λ i. rw (limit_rates-at fl c.limiters limited_at d store i) (ground arith) in
      record {
        once = h.once;
        capacities = λ i. (kept i).0 ∙ h.capacities i;
        slots = λ i.
            unheld-same (holds i held) (limit_rates fl c.limiters limited_at d store i) (store i)
              (kept i).0 (kept i).1
            ∙ h.slots i;
      }

  settle_error-IsReturned :
      (t : Trip) (may_retry : Bool) (e : ClientError) (held : List ℕ) (s : State F)
      → AreHeld before held s.store
      → IsReturned before (settle_error fl c name t may_retry e held s)
  unfolding settle_error
  settle_error-IsReturned t may_retry e held s h =
      let s' = observe c (api_request name "transport_error") (free held s) in
      let same =
        SameSlots-observe c (api_request name "transport_error") (free held s) before
          (release_all-SameSlots before held s.store h) in
      if-IsReturned before t.gone (failed cancelled, s')
        (if may_retry then (again, s') else (failed e, s')) same
        (if-IsReturned before may_retry (again, s') (failed e, s') same same)

  slow_down-AreHeld :
      (t : Trip) (resp : Response) (held : List ℕ) (b : Bool) (s : State F)
      → AreHeld before held s.store
      → AreHeld before held (if b then slow_down fl c t resp s else s).store
  unfolding slow_down
  slow_down-AreHeld t resp held false s h = h
  slow_down-AreHeld t resp held true s h =
      let d = (inspect_rate_limit resp).1 in
      subst (λ (store : Heap F). AreHeld before held store)
        (sym (
          observe-store c rate_limited_event
            (record s { store = limit_rates fl c.limiters t.limited_at d s.store })))
        (limit_rates-AreHeld t.limited_at d held s.store h)

  settle_answer-IsReturned :
      (t : Trip) (may_retry : Bool) (resp : Response) (held : List ℕ) (s : State F)
      → AreHeld before held s.store
      → IsReturned before (settle_answer fl c name t may_retry resp held s)
  unfolding settle_answer
  settle_answer-IsReturned t may_retry resp held s h =
      let (result, is_limited) = judge c.expected_business_code resp in
      let observed = observe c (api_request name result) s in
      let s' = if is_limited then slow_down fl c t resp observed else observed in
      let same = release_all-SameSlots before held s'.store (
        slow_down-AreHeld t resp held is_limited observed (
          subst (λ (store : Heap F). AreHeld before held store)
            (sym (observe-store c (api_request name result) s)) h)) in
      if-IsReturned before (may_retry && wants_retry c resp) (again, free held s')
        (responded resp, free held s') same same

  settle-IsReturned :
      (t : Trip) (may_retry : Bool) (r : Reply) (held : List ℕ) (s : State F)
      → AreHeld before held s.store
      → IsReturned before (settle fl c name t may_retry r held s)
  unfolding settle
  settle-IsReturned t may_retry transport_failure held s h =
      settle_error-IsReturned t may_retry transport_failed held s h
  settle-IsReturned t may_retry read_failure held s h =
      settle_error-IsReturned t may_retry read_failed held s h
  settle-IsReturned t may_retry no_response held s h =
      SameSlots-observe c (api_request name "transport_error") (free held s) before
        (release_all-SameSlots before held s.store h)
  settle-IsReturned t may_retry (answer resp) held s h =
      if-IsReturned before (ltb max_observed_body resp.body_size)
        (failed too_large, observe c (api_request name "decode_error") (free held s))
        (settle_answer fl c name t may_retry resp held s)
        (SameSlots-observe c (api_request name "decode_error") (free held s) before
          (release_all-SameSlots before held s.store h))
        (settle_answer-IsReturned t may_retry resp held s h)

  waited-store : (b : Bool) (s : State F) → (waited c b s).store ≡ s.store
  waited-store true s = observe-store c limiter_wait s
  waited-store false s = refl

  pub use_slots-IsReturned :
      (t : Trip) (may_retry : Bool) (s : State F) (r : Taking F)
      → IsBalanced before r
      → IsReturned before (use_slots fl c name t may_retry s r)
  use_slots-IsReturned t may_retry s (err (cancelled_err, h)) is =
      subst (λ (store : Heap F). SameSlots store before)
        (sym (waited-store h.has_limiter (record s { store = h.store }))) is
  use_slots-IsReturned t may_retry s (err (waiting, h)) is = tt
  use_slots-IsReturned t may_retry s (err (acquired, h)) is = absurd is
  use_slots-IsReturned t may_retry s (ok h) is =
      let s' = waited c h.has_limiter (record s { store = h.store }) in
      let now_held : AreHeld before h.held s'.store =
        subst (λ (store : Heap F). AreHeld before h.held store)
          (sym (waited-store h.has_limiter (record s { store = h.store }))) is in
      if-IsReturned before t.sign_fails (failed sign_failed, free h.held s')
        (settle fl c name t may_retry t.reply h.held (record s' { events = sent ∷ s'.events }))
        (release_all-SameSlots before h.held s'.store now_held)
        (settle-IsReturned t may_retry t.reply h.held (record s' { events = sent ∷ s'.events })
          now_held)
