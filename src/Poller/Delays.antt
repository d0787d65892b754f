-- ===== src/Poller/Delays.antt =====
-- What the delays of an accepted job are.
use qiniu_exporter.Base.{
  Bool, Bool-cases, List, String, arith, false, if◌then◌else◌, inl, inr, none, refl, some, str_eq,
  true, ℕ, ◌%◌, ◌<◌, ◌||◌, ◌≡◌,
}
use qiniu_exporter.Base.Int.{leb_ℤ, neg_part, negsuc, pos, pos_part, ℤ, ◌-ℤ◌}
use qiniu_exporter.Poller.{
  Job, add, after_overlap, first_delay, is_invalid_job, next_delay, scheduled, stable_phase,
  starts_now,
}

after_overlap_positive : (interval delay : ℤ) → 0 < pos_part (after_overlap interval delay).0
unfolding after_overlap
after_overlap_positive (pos i) (pos d) = ground arith
after_overlap_positive (pos i) (negsuc d) = ground arith
after_overlap_positive (negsuc i) (pos d) = ground arith
after_overlap_positive (negsuc i) (negsuc d) = ground arith

-- After every run the timer is set to a positive delay, whatever the job's own schedule, the jitter
-- and the duration of the run are.
pub next_delay_positive :
    (jittered : ℤ) (job : Job) (now : ℕ) (duration : ℤ)
    → 0 < pos_part (next_delay jittered job now duration).0
unfolding next_delay
next_delay_positive jittered job now duration =
    after_overlap_positive job.interval (scheduled job.next now (jittered -ℤ duration))

phase_within :
    (hash : String → ℕ) (key : String) (interval : ℤ)
    → leb_ℤ interval (pos 0) ≡ false
    → (neg_part (stable_phase hash key interval) ≡ 0)
      × (pos_part (stable_phase hash key interval) < pos_part interval)
unfolding stable_phase
phase_within hash key (negsuc i) h = absurd (ground arith)
phase_within hash key (pos i) h = elim (Bool-cases (str_eq key "")) [
  | inl e ↦ ground arith
  | inr e ↦
      let positive : 0 < i = ground arith in
      let bound : hash key % i < i = omega arith in ground arith
]

accepted :
    (job : Job) → job.next ≡ none → is_invalid_job job ≡ false → leb_ℤ job.interval (pos 0) ≡ false
unfolding is_invalid_job
accepted job n h = ground arith

within :
    (starts : Bool) (delay interval : ℤ)
    → leb_ℤ interval (pos 0) ≡ false
    → neg_part delay ≡ 0
    → pos_part delay < pos_part interval
    → (neg_part (if starts then pos 0 else delay) ≡ 0)
      × (pos_part (if starts then pos 0 else delay) < pos_part interval)
within true delay interval p n d = (refl, omega arith)
within false delay interval p n d = (n, d)

-- A job that is accepted and has no schedule of its own first runs at once or after less than its
-- interval.
pub first_delay_within :
    (hash : String → ℕ) (jobs : List Job) (job : Job) (now : ℕ) {jobs' : List Job}
    → add jobs job ≡ some jobs'
    → job.next ≡ none
    → (neg_part (first_delay hash job now) ≡ 0)
      × (pos_part (first_delay hash job now) < pos_part job.interval)
unfolding first_delay add
first_delay_within hash jobs job now h n =
    let positive : leb_ℤ job.interval (pos 0) ≡ false = ground (arith, accepted job n) in
    let phase = phase_within hash job.phase_key job.interval positive in
    rw n (
      within (job.run_on_start || starts_now job.run_on_start_when now)
        (stable_phase hash job.phase_key job.interval) job.interval positive phase.0 phase.1)
