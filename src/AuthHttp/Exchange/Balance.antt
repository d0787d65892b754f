-- ===== src/AuthHttp/Exchange/Balance.antt =====
-- That a request gives back every slot that it takes, however it ends.
use qiniu_exporter.AuthHttp.{ClientError, Request, cancelled, replay_failed}
use qiniu_exporter.AuthHttp.Exchange.{
  Client, State, Trip, Verdict, admit, again, failed, is_again, responded, retries_of, run_attempt,
  run_attempts, send_admitted, send_request, unreturned,
}
use qiniu_exporter.AuthHttp.Exchange.Settled.{IsReturned, if-IsReturned, use_slots-IsReturned}
use qiniu_exporter.AuthHttp.Slots.{Heap, take_slots}
use qiniu_exporter.AuthHttp.Slots.Held.{SameSlots}
use qiniu_exporter.AuthHttp.Slots.Taken.{take_slots-IsBalanced}
use qiniu_exporter.Base.{
  Bool, String, false, if◌then◌else◌, ltb, refl, suc, true, zero, ℕ, ◌&&◌, ◌==◌, ◌∙◌,
}
use qiniu_exporter.Base.Floats.{Floats}
use qiniu_exporter.Base.Result.{Result, err, ok}

SameSlots-trans : {F : Type 0} (a b d : Heap F) → SameSlots a b → SameSlots b d → SameSlots a d
SameSlots-trans a b d h k i = ((h i).0 ∙ (k i).0, (h i).1 ∙ (k i).1)

IsReturned-since :
    {F : Type 0} (a b : Heap F) (r : Verdict × State F)
    → IsReturned a r
    → SameSlots a b
    → IsReturned b r
IsReturned-since a b (unreturned, s) h k = tt
IsReturned-since a b (again, s) h k = SameSlots-trans s.store a b h k
IsReturned-since a b (responded resp, s) h k = SameSlots-trans s.store a b h k
IsReturned-since a b (failed e, s) h k = SameSlots-trans s.store a b h k

go_on-IsReturned :
    {F : Type 0} (r : Verdict × State F) (later : State F → Verdict × State F) (before : Heap F)
    → IsReturned before r
    → ((s : State F) → IsReturned s.store (later s))
    → IsReturned before (if is_again r.0 then later r.1 else r)
go_on-IsReturned (again, s) later before h f = IsReturned-since s.store before (later s) (f s) h
go_on-IsReturned (unreturned, s) later before h f = tt
go_on-IsReturned (responded resp, s) later before h f = h
go_on-IsReturned (failed e, s) later before h f = h

module _ {F : Type 0} (fl : Floats F) (c : Client) where
  run_attempt-IsReturned :
      (name : String) (t : Trip) (n : ℕ) (may_retry : Bool) (s : State F)
      → IsReturned s.store (run_attempt fl c name t n may_retry s)
  unfolding run_attempt
  run_attempt-IsReturned name t n may_retry s =
      if-IsReturned s.store (ltb 0 n && t.backoff_cancelled) (failed cancelled, s) _
        (λ i. (refl, refl))
        (if-IsReturned s.store t.replay_fails (failed replay_failed, s) _ (λ i. (refl, refl))
          (use_slots-IsReturned fl c name s.store t may_retry s
            (take_slots fl c.limiters t.visits (n == 0) s.store)
            (take_slots-IsBalanced fl c.limiters t.visits (n == 0) s.store)))

  run_attempts-IsReturned :
      (name : String) (trips : ℕ → Trip) (left n : ℕ) (s : State F)
      → IsReturned s.store (run_attempts fl c name trips left n s)
  unfolding run_attempts
  run_attempts-IsReturned name trips zero n s = run_attempt-IsReturned name (trips n) n false s
  run_attempts-IsReturned name trips (suc left) n s =
      go_on-IsReturned (run_attempt fl c name (trips n) n true s)
        (λ s'. run_attempts fl c name trips left (suc n) s') s.store
        (run_attempt-IsReturned name (trips n) n true s)
        (λ s'. run_attempts-IsReturned name trips left (suc n) s')

  send_admitted-IsReturned :
      (trips : ℕ → Trip) (s : State F) (r : Result ClientError String)
      → IsReturned s.store (send_admitted fl c trips s r)
  send_admitted-IsReturned trips s (err e) = λ i. (refl, refl)
  send_admitted-IsReturned trips s (ok name) =
      run_attempts-IsReturned name trips (retries_of c.max_retries) 0 s

  -- Whenever `Do` returns, with an answer or with an error, every limiter has as many slots in use
  -- as before the call: each slot that an attempt took was given back, on each of its paths and
  -- however many attempts there were. Only a call that still waits for a limiter holds slots.
  pub send_request-IsReturned :
      (req : Request) (trips : ℕ → Trip) (s : State F)
      → IsReturned s.store (send_request fl c req trips s)
  unfolding send_request
  send_request-IsReturned req trips s = send_admitted-IsReturned trips s (admit c req)
