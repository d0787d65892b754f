-- ===== src/AuthHttp/Slots.antt =====
-- `Client.acquire` and `Client.onRateLimited`: what the client does to its limiters. Limiters are
-- shared objects: a pointer is a number, a heap gives the limiter that it points to, and two
-- pointers of a client may be the same.
pub mod Held
pub mod Taken
pub mod Asked
use qiniu_exporter.Base.{
  Bool, List, Option, [], false, if◌then◌else◌, none, some, true, ℕ, ◌==◌, ◌||◌, ◌∷◌,
}
use qiniu_exporter.Base.Floats.{Floats}
use qiniu_exporter.Base.Int.{ℤ}
use qiniu_exporter.Base.Result.{Result, err, ok, ◌>>=◌}
use qiniu_exporter.Limiter.{
  Limiter, Outcome, Round, acquire, acquired, cancelled_err, on_rate_limited, release, waiting,
}

abbrev pub Heap : Type 0 → Type 0
Heap F = ℕ → Limiter F

-- The pointers of a Client.
pub record Limiters : Type 0 where
  pub first_attempt : Option ℕ
  pub retry : Option ℕ
  pub host : Option ℕ
  pub endpoint : Option ℕ

-- How one call of `Acquire` meets its surroundings, as `Limiter.acquire` takes it.
pub record Visit : Type 0 where
  pub is_done : Bool
  pub entered : Bool
  pub rounds : List Round

-- The limiters whose release functions are held, the latest first, which is also the map `acquired`;
-- and the store.
pub record Holding (F : Type 0) : Type 0 where
  pub held : List ℕ
  pub has_limiter : Bool
  pub store : Heap F

unfoldable pub holds : ℕ → List ℕ → Bool
holds i [] = false
holds i (j ∷ js) = j == i || holds i js

abbrev pub put : {F : Type 0} → ℕ → Limiter F → Heap F → Heap F
put i l store = λ j. if j == i then l else store j

-- `releaseAll`, from the latest release function to the first.
unfoldable pub release_all : {F : Type 0} → List ℕ → Heap F → Heap F
release_all [] store = store
release_all (i ∷ is) store = release_all is (put i (release (store i)) store)

abbrev pub same_pointer : Option ℕ → Option ℕ → Bool
same_pointer none none = true
same_pointer none (some j) = false
same_pointer (some i) none = false
same_pointer (some i) (some j) = i == j

-- Where a call of `Acquire` fails its error is returned; `waiting` is a call that has not returned.
abbrev pub Taking : Type 0 → Type 0
Taking F = Result (Outcome × Holding F) (Holding F)

-- What the outcome of `Acquire` on the limiter i makes of what is held.
abbrev pub took : {F : Type 0} → ℕ → Holding F → Outcome × Limiter F → Taking F
took i h (acquired, l) =
    ok (record { held = i ∷ h.held; has_limiter = true; store = put i l h.store })
took i h (cancelled_err, l) =
    err (cancelled_err, record { held = h.held; has_limiter = true; store = put i l h.store })
took i h (waiting, l) =
    err (waiting, record { held = h.held; has_limiter = true; store = put i l h.store })

-- An error after the first limiter calls `releaseAll`.
abbrev pub or_release : {F : Type 0} → Taking F → Taking F
or_release (ok h) = ok h
or_release (err (cancelled_err, h)) =
    err (cancelled_err, record h { store = release_all h.held h.store })
or_release (err (outcome, h)) = err (outcome, h)

module _ {F : Type 0} (fl : Floats F) where
  -- The closure `acquire`.
  unfoldable pub take_slot : (ℕ → Visit) → Option ℕ → Holding F → Taking F
  unfolding acquire
  take_slot visits none h = ok h
  take_slot visits (some i) h =
      if holds i h.held
      then ok h
      else took i h (acquire fl (h.store i) (visits i).is_done (visits i).entered (visits i).rounds)

  -- The method `acquire`.
  unfoldable pub take_slots : Limiters → (ℕ → Visit) → Bool → Heap F → Taking F
  unfolding take_slot
  take_slots c visits is_first store = do
    one ←
        take_slot visits (if is_first then c.first_attempt else c.retry)
          (record { held = []; has_limiter = false; store = store })
    two ← or_release (take_slot visits c.host one)
    if same_pointer c.endpoint c.host then ok two else or_release (take_slot visits c.endpoint two)

  -- `limited_at` is the clock that `OnRateLimited` of each limiter reads.
  abbrev pub limit : (ℕ → ℕ) → ℤ → Option ℕ → Heap F → Heap F
  limit limited_at retry_after none store = store
  limit limited_at retry_after (some i) store =
      put i (on_rate_limited fl (store i) (limited_at i) retry_after) store

  -- `onRateLimited`
  unfoldable pub limit_rates : Limiters → (ℕ → ℕ) → ℤ → Heap F → Heap F
  limit_rates c limited_at retry_after store =
      let hosted = limit limited_at retry_after c.host store in
      if same_pointer c.endpoint c.host
      then hosted
      else limit limited_at retry_after c.endpoint hosted
