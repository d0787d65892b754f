-- ===== src/Poller.antt =====
-- internal/poller/scheduler.go: which jobs the scheduler accepts, and when a job runs next. A
-- time.Duration is an integer of nanoseconds; functions that a job brings are values that may be
-- left out. The hash of the phase key and the jittered interval are arguments.
pub mod Delays
mod Examples
use qiniu_exporter.Base.{
  Bool, List, Option, String, [], false, if◌then◌else◌, length, none, not, some, str_eq, true, ℕ,
  ◌%◌, ◌&&◌, ◌++◌, ◌==◌, ◌||◌, ◌∷◌,
}
use qiniu_exporter.Base.Int.{leb_ℤ, ltb_ℤ, pos, pos_part, ℤ, ◌-ℤ◌}
use qiniu_exporter.Base.Time.{second}

pub record Job : Type 0 where
  pub name : String
  pub resource : String
  pub resources : List String
  pub phase_key : String
  pub interval : ℤ
  pub next : Option (ℕ → ℤ)
  pub timeout : ℤ
  pub run_on_start : Bool
  pub run_on_start_when : Option (ℕ → Bool)
  pub has_run : Bool
  pub has_run_resources : Bool

unfoldable pub is_invalid_job : Job → Bool
is_invalid_job job =
    str_eq job.name ""
    || (leb_ℤ job.interval (pos 0) && elim job.next [ none ↦ true | some f ↦ false ])
    || leb_ℤ job.timeout (pos 0)
    || (if job.has_run then job.has_run_resources else not job.has_run_resources)
    || (not (str_eq job.resource "") && not (length job.resources == 0))
    || (job.has_run_resources && (not (str_eq job.resource "") || not (length job.resources == 0)))

-- `Scheduler.Add`: the jobs after it, or none for an error.
unfoldable pub add : List Job → Job → Option (List Job)
unfolding is_invalid_job
add jobs job = if is_invalid_job job then none else some (jobs ++ job ∷ [])

unfoldable pub stable_phase : (String → ℕ) → String → ℤ → ℤ
stable_phase hash key interval =
    if str_eq key "" || leb_ℤ interval (pos 0) then pos 0 else pos (hash key % pos_part interval)

-- `job.Next(now)`, or else the delay that is given.
abbrev pub scheduled : Option (ℕ → ℤ) → ℕ → ℤ → ℤ
scheduled none now delay = delay
scheduled (some next) now delay = next now

abbrev pub starts_now : Option (ℕ → Bool) → ℕ → Bool
starts_now none now = false
starts_now (some test) now = test now

-- The delay of the first run.
unfoldable pub first_delay : (String → ℕ) → Job → ℕ → ℤ
unfolding stable_phase
first_delay hash job now =
    let delay = scheduled job.next now (stable_phase hash job.phase_key job.interval) in
    if job.run_on_start || starts_now job.run_on_start_when now then pos 0 else delay

-- `if nextDelay <= 0`: the delay that is set, and whether the run counts as skipped for overlap.
unfoldable pub after_overlap : ℤ → ℤ → ℤ × Bool
after_overlap interval delay =
    if leb_ℤ delay (pos 0)
    then (if ltb_ℤ (pos 0) interval then interval else pos second, true)
    else (delay, false)

-- The delay after a run.
unfoldable pub next_delay : ℤ → Job → ℕ → ℤ → ℤ × Bool
unfolding after_overlap
next_delay jittered job now duration =
    after_overlap job.interval (scheduled job.next now (jittered -ℤ duration))
