-- ===== src/Limiter/Examples.antt =====
-- The theorems on the limiter at concrete inputs: 2 queries a second, whole numbers for float64.
use qiniu_exporter.Base.{
  All, List, [], arith, false, none, refl, some, true, ℕ, ◌*◌, ◌+◌, ◌<◌, ◌∷◌, ◌≡◌, ◌≤◌,
}
use qiniu_exporter.Base.Floats.Whole.{Whole, fin, whole-NonnegLaws, whole_floats}
use qiniu_exporter.Base.Int.{negsuc, pos, pos_part}
use qiniu_exporter.Base.Time.{hour, max_duration, minute, second, zero_time}
use qiniu_exporter.Limiter.{
  Limiter, Round, acquire, new_limiter, on_rate_limited, pacing_interval, take_or_delay,
}
use qiniu_exporter.Limiter.Gate.{FitsGate, acquire-FitsGate, acquire_cancelled}
use qiniu_exporter.Limiter.Rates.{
  IsInRange, grants-SpacedFrom, pacing_interval_antitone, pacing_interval_bounds,
  run-new_limiter-IsInRange,
}
use qiniu_exporter.Limiter.Spacing.{
  limited, attempts, Event, SpacedFrom, grants, on_rate_limited-grants, run, take_after_delay,
  take_refused,
}

abbrev two_qps : Limiter Whole
two_qps = new_limiter whole_floats (fin 2) (some 1)

abbrev noon : ℕ
noon = zero_time + 12 * hour

abbrev busy : List Event
busy =
    attempts noon
    ∷ attempts (noon + 1)
    ∷ limited (noon + 2) (negsuc 4)
    ∷ attempts (noon + minute)
    ∷ []

on_rate_limited-grants_example :
    All
      (λ g. (noon + 5 * second ≤ g) × (noon + pos_part (pos 7) ≤ g))
      (grants whole_floats (on_rate_limited whole_floats two_qps noon (pos 7)) busy)
on_rate_limited-grants_example = on_rate_limited-grants whole_floats two_qps noon (pos 7) busy

granted_once : Limiter Whole
granted_once = (take_or_delay whole_floats two_qps noon).2

take_refused_example :
    ((take_or_delay whole_floats granted_once (noon + 1)).2.next ≡ granted_once.next)
    × ((take_or_delay whole_floats granted_once (noon + 1)).2.cooldown_until
        ≡ granted_once.cooldown_until)
    × (0 < (take_or_delay whole_floats granted_once (noon + 1)).0)
take_refused_example =
    take_refused whole_floats granted_once (noon + 1) (unfold granted_once take_or_delay in refl)

take_after_delay_example :
    (take_or_delay whole_floats
      (take_or_delay whole_floats granted_once (noon + 1)).2
      (noon + 1 + (take_or_delay whole_floats granted_once (noon + 1)).0)).1
    ≡ true
take_after_delay_example =
    take_after_delay whole_floats granted_once (noon + 1)
      (unfold granted_once take_or_delay in refl) (unfold granted_once take_or_delay in omega arith)
      (unfold granted_once take_or_delay in omega arith)

run-new_limiter-IsInRange_example :
    IsInRange whole-NonnegLaws (run whole_floats (new_limiter whole_floats (fin 2) none) busy)
run-new_limiter-IsInRange_example =
    run-new_limiter-IsInRange whole-NonnegLaws (fin 2) none busy refl

pacing_interval_antitone_example :
    pacing_interval whole_floats (fin 3) ≤ pacing_interval whole_floats (fin 2)
pacing_interval_antitone_example =
    pacing_interval_antitone whole-NonnegLaws (fin 2) (fin 3) refl refl

pacing_interval_bounds_example :
    (1 ≤ pacing_interval whole_floats (fin 3))
    × (pacing_interval whole_floats (fin 3) ≤ max_duration)
pacing_interval_bounds_example = pacing_interval_bounds whole-NonnegLaws (fin 3) refl

abbrev fast : Limiter Whole
fast = new_limiter whole_floats (fin 32) (some 1)

fast-IsInRange : IsInRange whole-NonnegLaws fast
fast-IsInRange = record {
  base-nonneg = refl;
  current-nonneg = refl;
  above_floor = refl;
  below_base = refl;
}

grants-SpacedFrom_example :
    SpacedFrom
      (pacing_interval whole_floats fast.base_qps)
      fast.next
      (grants whole_floats fast busy)
grants-SpacedFrom_example = grants-SpacedFrom whole-NonnegLaws fast busy refl fast-IsInRange

two_tokens : grants whole_floats two_qps busy ≡ noon ∷ (noon + minute) ∷ []
unfolding grants take_or_delay on_rate_limited
two_tokens = refl

abbrev go_on : List Round
go_on = record { cancelled = false; now = noon; cancelled_waiting = false } ∷ []

acquire-FitsGate_example : FitsGate (acquire whole_floats two_qps false true go_on).1
acquire-FitsGate_example =
    acquire-FitsGate whole_floats two_qps false true go_on (λ c e. omega arith)

abbrev give_up : List Round
give_up = record { cancelled = true; now = noon; cancelled_waiting = false } ∷ []

acquire_cancelled_example :
    ((acquire whole_floats two_qps false true give_up).1.held ≡ 0)
    × ((acquire whole_floats two_qps false true give_up).1.next ≡ zero_time)
    × ((acquire whole_floats two_qps false true give_up).1.cooldown_until ≡ zero_time)
acquire_cancelled_example =
    acquire_cancelled whole_floats two_qps false true give_up (unfold acquire in refl)
