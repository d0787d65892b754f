-- ===== src/Limiter.antt =====
-- internal/limiter/limiter.go. The mutex is held for the whole of `takeOrDelay` and
-- `OnRateLimited`, so each is a step on the state; the clock reading is an argument. A nil semaphore
-- is the capacity `none`. float64 is a parameter.
pub mod Spacing
pub mod Rates
pub mod Gate
mod Examples
use qiniu_exporter.Base.{
  Bool, List, Option, [], false, if◌then◌else◌, leb, ltb, none, not, some, true, ℕ, ◌&&◌, ◌*◌, ◌+◌,
  ◌-◌, ◌||◌, ◌∷◌,
}
use qiniu_exporter.Base.Floats.{Floats}
use qiniu_exporter.Base.Int.{leb_ℤ, ltb_ℤ, pos, pos_part, ℤ}
use qiniu_exporter.Base.Result.{Result, err, ok}
use qiniu_exporter.Base.Time.{is_zero_time, max_duration, minute, second, since, zero_time}

module _ (F : Type 0) where
  pub record Limiter : Type 0 where
    pub base_qps : F
    pub current_qps : F
    pub next : ℕ
    pub cooldown_until : ℕ
    pub recover_after : ℕ
    pub capacity : Option ℕ
    pub held : ℕ

pub data ConfigError : Type 0 where
  invalid_config : ConfigError

-- How one round of the loop of `Acquire` meets its surroundings.
pub record Round : Type 0 where
  pub cancelled : Bool
  pub now : ℕ
  pub cancelled_waiting : Bool

pub data Outcome : Type 0 where
  acquired cancelled_err waiting : Outcome

abbrev pub later_of : ℕ → ℕ → ℕ
later_of a b = if ltb a b then b else a

-- At least five seconds, also of a negative wait.
abbrev pub cooldown : ℤ → ℕ
cooldown retry_after =
    if ltb_ℤ retry_after (pos (5 * second)) then 5 * second else pos_part retry_after

abbrev pub release : {F : Type 0} → Limiter F → Limiter F
release l = elim l.capacity [ none ↦ l | some c ↦ record l { held = l.held - 1 } ]

module _ {F : Type 0} (fl : Floats F) where
  bad_qps : F → Bool
  bad_qps qps = fl.at_most qps fl.zero_f || fl.is_nan qps || fl.is_inf qps

  abbrev pub new_limiter : F → Option ℕ → Limiter F
  new_limiter qps capacity = record {
    base_qps = qps;
    current_qps = qps;
    next = zero_time;
    cooldown_until = zero_time;
    recover_after = zero_time;
    capacity = capacity;
    held = 0;
  }

  unfoldable pub new : F → ℤ → Result ConfigError (Limiter F)
  unfolding bad_qps
  new qps max_concurrency =
      if bad_qps qps || leb_ℤ max_concurrency (pos 0)
      then err invalid_config
      else ok (new_limiter qps (some (pos_part max_concurrency)))

  unfoldable pub new_rate : F → Result ConfigError (Limiter F)
  unfolding bad_qps
  new_rate qps = if bad_qps qps then err invalid_config else ok (new_limiter qps none)

  unfoldable pub pacing_interval : F → ℕ
  pacing_interval qps =
      let nanoseconds = fl.over (fl.of_nat second) qps in
      if fl.is_inf nanoseconds || fl.at_most (fl.of_nat max_duration) nanoseconds
      then max_duration
      else if fl.at_most nanoseconds (fl.of_nat 1)
      then 1
      else fl.ceil_nat nanoseconds

  -- The recovery of the rate at the head of `takeOrDelay`.
  unfoldable pub recover : Limiter F → ℕ → Limiter F
  recover l now =
      let doubled = fl.times l.current_qps (fl.of_nat 2) in
      if not (is_zero_time l.recover_after) && leb l.recover_after now
      then (if fl.at_most l.base_qps doubled
          then record l { current_qps = l.base_qps; recover_after = zero_time }
          else record l { current_qps = doubled; recover_after = now + 5 * minute })
      else l

  unfoldable pub allowed_at : Limiter F → ℕ → ℕ
  allowed_at l now = later_of (later_of now l.next) l.cooldown_until

  -- The delay, whether a token was taken, and the state after.
  unfoldable pub take_or_delay : Limiter F → ℕ → ℕ × Bool × Limiter F
  unfolding recover allowed_at pacing_interval
  take_or_delay l now =
      let r = recover l now in
      if ltb now (allowed_at r now)
      then (since (allowed_at r now) now, false, r)
      else (0, true, record r { next = now + pacing_interval r.current_qps })

  unfoldable pub on_rate_limited : Limiter F → ℕ → ℤ → Limiter F
  on_rate_limited l now retry_after =
      let until = now + cooldown retry_after in
      let halved = fl.over l.current_qps (fl.of_nat 2) in
      let floor = fl.over l.base_qps (fl.of_nat 16) in
      record l {
        cooldown_until = if ltb l.cooldown_until until then until else l.cooldown_until;
        current_qps = if fl.below halved floor then floor else halved;
        recover_after = now + 5 * minute;
      }

  -- The `for` of `Acquire`, over the rounds that its surroundings grant it.
  unfoldable pub wait_for_rate : Limiter F → List Round → Outcome × Limiter F
  unfolding take_or_delay
  wait_for_rate l [] = (waiting, l)
  wait_for_rate l (r ∷ rs) =
      let (delay, taken, l') = take_or_delay l r.now in
      let rest = wait_for_rate l' rs in
      if r.cancelled
      then (cancelled_err, release l)
      else if taken
      then (acquired, l')
      else if r.cancelled_waiting
      then (cancelled_err, release l')
      else rest

  -- `entered` says which case of the first `select` ran; it can be the send only while a slot is
  -- free, and the receive only if the context is done.
  unfoldable pub acquire : Limiter F → Bool → Bool → List Round → Outcome × Limiter F
  unfolding wait_for_rate
  acquire l done entered rounds = if done then (cancelled_err, l) else elim l.capacity [
    | none ↦ wait_for_rate l rounds
    | some c ↦
        (if entered
          then (if ltb l.held c
              then wait_for_rate (record l { held = l.held + 1 }) rounds
              else (waiting, l))
          else (cancelled_err, l))
  ]
