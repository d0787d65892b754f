-- ===== src/AuthHttp/Exchange/Attempts.antt =====
-- How often a request is sent, and when it is sent again.
use qiniu_exporter.AuthHttp.{
  ClientError, Request, endpoint, equal_fold, no_credentials, not_replayable,
}
use qiniu_exporter.AuthHttp.Exchange.{
  Client, State, Trip, Verdict, admit, again, failed, has_replayable_body, is_again, responded,
  retries_of, run_attempt, run_attempts, send_admitted, send_request, unreturned, wants_retry,
}
use qiniu_exporter.AuthHttp.Exchange.Tried.{IsTried, run_attempt-IsTried, sents}
use qiniu_exporter.AuthHttp.Policies.{IsAllowed, endpoint-IsAllowed}
use qiniu_exporter.Base.{
  String, arith, false, if◌then◌else◌, not, refl, suc, true, zero, ℕ, ◌+◌, ◌≡◌, ◌≢◌, ◌≤◌, ◌⊎◌,
}
use qiniu_exporter.Base.Floats.{Floats}
use qiniu_exporter.Base.Result.{>>=-eq-ok, Result, err, ok, refuse_if}

-- After attempts that began with k requests sent, and with so many retries left.
abbrev pub IsSpent : {F : Type 0} → Client → ℕ → ℕ → Verdict × State F → Type 0
IsSpent c left k (again, s) = ⊥
IsSpent c left k (responded resp, s) =
    (sents s.events ≤ k + suc left) × (wants_retry c resp ≡ true → sents s.events ≡ k + suc left)
IsSpent c left k (failed e, s) = sents s.events ≤ k + suc left
IsSpent c left k (unreturned, s) = sents s.events ≤ k + suc left

last-IsSpent :
    {F : Type 0} (c : Client) (k : ℕ) (r : Verdict × State F)
    → IsTried c false k r
    → IsSpent c 0 k r
last-IsSpent c k (again, s) (m, q) = cc
last-IsSpent c k (responded resp, s) (b, q) = (omega (arith, q), λ _. omega (arith, q))
last-IsSpent c k (failed e, s) q = omega (arith, q)
last-IsSpent c k (unreturned, s) q = omega (arith, q)

later-IsSpent :
    {F : Type 0} (c : Client) (left k : ℕ) (r : Verdict × State F)
    → IsSpent c left (suc k) r
    → IsSpent c (suc left) k r
later-IsSpent c left k (again, s) q = absurd q
later-IsSpent c left k (responded resp, s) (q, w) = (omega (arith, q), λ b. omega (arith, w b))
later-IsSpent c left k (failed e, s) q = omega (arith, q)
later-IsSpent c left k (unreturned, s) q = omega (arith, q)

go_on-IsSpent :
    {F : Type 0} (c : Client) (left k : ℕ) (r : Verdict × State F)
    (later : State F → Verdict × State F)
    → IsTried c true k r
    → ((s : State F) → sents s.events ≡ suc k → IsSpent c left (suc k) (later s))
    → IsSpent c (suc left) k (if is_again r.0 then later r.1 else r)
go_on-IsSpent c left k (again, s) later (m, q) f = later-IsSpent c left k (later s) (f s q)
go_on-IsSpent c left k (responded resp, s) later (b, q) f =
    let no_retry : wants_retry c resp ≡ false = b in (omega (arith, q), λ w. absurd (cc))
go_on-IsSpent c left k (failed e, s) later q f = omega (arith, q)
go_on-IsSpent c left k (unreturned, s) later q f = omega (arith, q)

module _ {F : Type 0} (fl : Floats F) (c : Client) where
  run_attempts-IsSpent :
      (name : String) (trips : ℕ → Trip) (left n k : ℕ) (s : State F)
      → sents s.events ≡ k
      → IsSpent c left k (run_attempts fl c name trips left n s)
  unfolding run_attempts
  run_attempts-IsSpent name trips zero n k s q =
      last-IsSpent c k (run_attempt fl c name (trips n) n false s)
        (run_attempt-IsTried fl c name k (trips n) n false s q)
  run_attempts-IsSpent name trips (suc left) n k s q =
      go_on-IsSpent c left k (run_attempt fl c name (trips n) n true s)
        (λ s'. run_attempts fl c name trips left (suc n) s')
        (run_attempt-IsTried fl c name k (trips n) n true s q)
        (λ s' q'. run_attempts-IsSpent name trips left (suc n) (suc k) s' q')

  send_admitted-IsSpent :
      (trips : ℕ → Trip) (s : State F) (r : Result ClientError String)
      → IsSpent c (retries_of c.max_retries) (sents s.events) (send_admitted fl c trips s r)
  send_admitted-IsSpent trips s (err e) = omega arith
  send_admitted-IsSpent trips s (ok name) =
      run_attempts-IsSpent name trips (retries_of c.max_retries) 0 (sents s.events) s refl

  -- However a call of `Do` goes, also where it still waits in `Acquire`, it has sent the request at
  -- most once more than its number of retries, which is two at most. It returns an answer that says
  -- that the rate is limited or that the server failed only after it has sent the request that
  -- often.
  pub send_request-IsSpent :
      (req : Request) (trips : ℕ → Trip) (s : State F)
      → IsSpent c (retries_of c.max_retries) (sents s.events) (send_request fl c req trips s)
        × (retries_of c.max_retries ≤ 2)
  unfolding send_request
  send_request-IsSpent req trips s = (send_admitted-IsSpent trips s (admit c req), omega arith)

  sent_admitted :
      (trips : ℕ → Trip) (s : State F) (r : Result ClientError String)
      → sents (send_admitted fl c trips s r).1.events ≢ sents s.events
      → (name : String) × (r ≡ ok name)
  sent_admitted trips s (err e) h = absurd (h refl)
  sent_admitted trips s (ok name) h = (name, refl)

  -- Nothing is sent, and so nothing is signed, but with credentials, with a body that can be sent
  -- again, over https, to the host of the policy, and to an endpoint in its list.
  pub send_request-IsAllowed :
      (req : Request) (trips : ℕ → Trip) (s : State F)
      → sents (send_request fl c req trips s).1.events ≢ sents s.events
      → (c.has_credentials ≡ true)
        × (has_replayable_body req ≡ true)
        × (equal_fold req.scheme "https" ≡ true)
        × (equal_fold req.url_host c.policy.host ≡ true)
        × ((req.host_header ≡ "") ⊎ (equal_fold req.host_header c.policy.host ≡ true))
        × (name : String) × IsAllowed c.policy req name
  unfolding send_request
  send_request-IsAllowed req trips s h =
      let (name, q) = sent_admitted trips s (admit c req) h in
      let (u1, e1, h1) = >>=-eq-ok (refuse_if (not c.has_credentials) no_credentials) _ q in
      let (n, e2, h2) = >>=-eq-ok (endpoint c.policy req) _ h1 in
      let (u3, e3, h3) =
        >>=-eq-ok (refuse_if (not (has_replayable_body req)) not_replayable) _ h2 in
      let (https, host, header, allowed) = endpoint-IsAllowed c.policy req e2 in
      (ground arith, ground arith, https, host, header, n, allowed)
