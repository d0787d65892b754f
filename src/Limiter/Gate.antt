-- ===== src/Limiter/Gate.antt =====
-- The concurrency gate: what `Acquire` and the release function that it returns do to the slots.
use qiniu_exporter.Base.{Bool, List, [], arith, refl, some, ℕ, ◌+◌, ◌∷◌, ◌≡◌, ◌≢◌, ◌≤◌}
use qiniu_exporter.Base.Floats.{Floats}
use qiniu_exporter.Limiter.{
  Limiter, Outcome, Round, acquire, acquired, cancelled_err, recover, release, take_or_delay,
  wait_for_rate,
}
use qiniu_exporter.Limiter.Spacing.{take_refused}

abbrev pub FitsGate : {F : Type 0} → Limiter F → Type 0
FitsGate l = (c : ℕ) → l.capacity ≡ some c → l.held ≤ c

module _ {F : Type 0} (fl : Floats F) where
  recover-gate :
      (l : Limiter F) (now : ℕ)
      → ((recover fl l now).capacity ≡ l.capacity) × ((recover fl l now).held ≡ l.held)
  unfolding recover
  recover-gate l now = ground arith

  take-gate :
      (l : Limiter F) (now : ℕ)
      → ((take_or_delay fl l now).2.capacity ≡ l.capacity)
        × ((take_or_delay fl l now).2.held ≡ l.held)
  unfolding take_or_delay
  take-gate l now = ground (arith, recover-gate l now)

  -- What a wait leaves of the slots, by how it ends.
  abbrev SlotsAfter : Limiter F → Outcome × Limiter F → Type 0
  SlotsAfter l (o, l') =
      (l'.capacity ≡ l.capacity)
      × (o ≡ cancelled_err
          → (l'.held ≡ (release l).held)
            × (l'.next ≡ l.next)
            × (l'.cooldown_until ≡ l.cooldown_until))
      × (o ≢ cancelled_err → l'.held ≡ l.held)

  release-keeps :
      (l : Limiter F)
      → ((release l).capacity ≡ l.capacity)
        × ((release l).next ≡ l.next)
        × ((release l).cooldown_until ≡ l.cooldown_until)
  release-keeps l = ground arith

  wait_for_rate-SlotsAfter :
      (l : Limiter F) (rs : List Round) → SlotsAfter l (wait_for_rate fl l rs)
  unfolding wait_for_rate
  wait_for_rate-SlotsAfter l [] = (refl, λ e. cc, λ _. refl)
  wait_for_rate-SlotsAfter l (r ∷ rs) = ground (
    arith,
    release-keeps l,
    release-keeps (take_or_delay fl l r.now).2,
    take-gate l r.now,
    take_refused fl l r.now,
    wait_for_rate-SlotsAfter (take_or_delay fl l r.now).2 rs,
  )

  -- The number of slots in use never passes the capacity of the gate.
  pub acquire-FitsGate :
      (l : Limiter F) (done entered : Bool) (rs : List Round)
      → FitsGate l
      → FitsGate (acquire fl l done entered rs).1
  unfolding acquire
  acquire-FitsGate l done entered rs h c e = ground (
    arith,
    h c,
    wait_for_rate-SlotsAfter l rs,
    wait_for_rate-SlotsAfter (record l { held = l.held + 1 }) rs,
  )

  -- A cancelled `Acquire` leaves the slots, the pacing and the cooldown as it found them, at
  -- whichever of its four places the context ends it.
  pub acquire_cancelled :
      (l : Limiter F) (done entered : Bool) (rs : List Round)
      → (acquire fl l done entered rs).0 ≡ cancelled_err
      → ((acquire fl l done entered rs).1.held ≡ l.held)
        × ((acquire fl l done entered rs).1.next ≡ l.next)
        × ((acquire fl l done entered rs).1.cooldown_until ≡ l.cooldown_until)
  unfolding acquire
  acquire_cancelled l done entered rs h = ground (
    arith,
    wait_for_rate-SlotsAfter l rs,
    wait_for_rate-SlotsAfter (record l { held = l.held + 1 }) rs,
  )

  -- A successful `Acquire` holds one slot more where there is a gate, within its capacity, and the
  -- release function that it returns gives exactly that slot back.
  pub acquire_granted :
      (l : Limiter F) (done entered : Bool) (rs : List Round) (c : ℕ)
      → l.capacity ≡ some c
      → (acquire fl l done entered rs).0 ≡ acquired
      → ((acquire fl l done entered rs).1.held ≡ l.held + 1)
        × (l.held + 1 ≤ c)
        × ((release (acquire fl l done entered rs).1).held ≡ l.held)
  unfolding acquire
  acquire_granted l done entered rs c e h =
      ground (arith, wait_for_rate-SlotsAfter (record l { held = l.held + 1 }) rs)

  -- Whether or not there is a gate, the release function gives back what a successful `Acquire` took.
  pub acquire-release :
      (l : Limiter F) (done entered : Bool) (rs : List Round)
      → ((acquire fl l done entered rs).1.capacity ≡ l.capacity)
        × ((acquire fl l done entered rs).0 ≡ acquired
            → (release (acquire fl l done entered rs).1).held ≡ l.held)
  unfolding acquire
  acquire-release l done entered rs = ground (
    arith,
    wait_for_rate-SlotsAfter l rs,
    wait_for_rate-SlotsAfter (record l { held = l.held + 1 }) rs,
  )
