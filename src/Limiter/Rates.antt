-- ===== src/Limiter/Rates.antt =====
-- The effective rate stays between a sixteenth of the configured rate and that rate, so tokens are
-- never granted faster than the configured rate allows.
use qiniu_exporter.Base.{
  Bool-cases, List, Option, [], ap, arith, inl, inr, refl, true, ℕ, ◌+◌, ◌∙◌, ◌∷◌, ◌≡◌, ◌≤◌,
}
use qiniu_exporter.Base.Floats.{Floats}
use qiniu_exporter.Base.Floats.Laws.{NonnegLaws}
use qiniu_exporter.Base.Int.{ℤ}
use qiniu_exporter.Base.Time.{max_duration, second}
use qiniu_exporter.Limiter.{
  Limiter, new_limiter, on_rate_limited, pacing_interval, recover, take_or_delay,
}
use qiniu_exporter.Limiter.Spacing.{
  Event, SpacedFrom, SpacedFrom-le, attempts, grants, limited, run, step, take_granted,
  take_refused,
}

module _ {F : Type 0} {fl : Floats F} (laws : NonnegLaws fl) where
  pub record IsInRange (l : Limiter F) : Type 0 where
    pub base-nonneg : fl.at_most fl.zero_f l.base_qps ≡ true
    pub current-nonneg : fl.at_most fl.zero_f l.current_qps ≡ true
    pub above_floor : fl.at_most (fl.over l.base_qps (fl.of_nat 16)) l.current_qps ≡ true
    pub below_base : fl.at_most l.current_qps l.base_qps ≡ true

  new_limiter-IsInRange :
      (qps : F) (capacity : Option ℕ)
      → fl.at_most fl.zero_f qps ≡ true
      → IsInRange (new_limiter fl qps capacity)
  new_limiter-IsInRange qps capacity h = record {
    base-nonneg = h;
    current-nonneg = h;
    above_floor = (laws.over_nat qps 16 h (omega arith) (omega arith)).1;
    below_base = laws.order.at_most_refl qps h;
  }

  recover-IsInRange : (l : Limiter F) (now : ℕ) → IsInRange l → IsInRange (recover fl l now)
  unfolding recover
  recover-IsInRange l now v =
      let twice = fl.times l.current_qps (fl.of_nat 2) in
      ground (
        arith,
        laws.times_nat l.current_qps 2,
        laws.order.at_most_total l.base_qps twice,
        laws.order.at_most_trans (fl.over l.base_qps (fl.of_nat 16)) l.current_qps twice,
        laws.over_nat l.base_qps 16,
        laws.order.at_most_refl l.base_qps,
      )

  on_rate_limited-IsInRange :
      (l : Limiter F) (now : ℕ) (retry_after : ℤ)
      → IsInRange l
      → IsInRange (on_rate_limited fl l now retry_after)
  unfolding on_rate_limited
  on_rate_limited-IsInRange l now retry_after v =
      let half = fl.over l.current_qps (fl.of_nat 2) in
      let floor = fl.over l.base_qps (fl.of_nat 16) in
      ground (
        arith,
        laws.over_nat l.current_qps 2,
        laws.over_nat l.base_qps 16,
        laws.order.not_below half floor,
        laws.order.at_most_trans half l.current_qps l.base_qps,
        laws.order.at_most_refl floor,
      )

  take-IsInRange : (l : Limiter F) (now : ℕ) → IsInRange l → IsInRange (take_or_delay fl l now).2
  unfolding take_or_delay
  take-IsInRange l now v = ground (arith, recover-IsInRange l now v)

  step-IsInRange : (l : Limiter F) (e : Event) → IsInRange l → IsInRange (step fl l e)
  unfolding step
  step-IsInRange l (attempts now) v = take-IsInRange l now v
  step-IsInRange l (limited now retry_after) v = on_rate_limited-IsInRange l now retry_after v

  run-IsInRange : (l : Limiter F) (es : List Event) → IsInRange l → IsInRange (run fl l es)
  unfolding run
  run-IsInRange l [] v = v
  run-IsInRange l (e ∷ es) v = run-IsInRange (step fl l e) es (step-IsInRange l e v)

  -- Whatever mix of attempts and rate limits a new limiter meets, its effective rate is at most the
  -- configured one and at least a sixteenth of it (configured rate of at least 0).
  pub run-new_limiter-IsInRange :
      (qps : F) (capacity : Option ℕ) (es : List Event)
      → fl.at_most fl.zero_f qps ≡ true
      → IsInRange (run fl (new_limiter fl qps capacity) es)
  run-new_limiter-IsInRange qps capacity es h =
      run-IsInRange (new_limiter fl qps capacity) es (new_limiter-IsInRange qps capacity h)

  -- A lower rate above zero never gives a shorter interval.
  pub pacing_interval_antitone :
      (a b : F)
      → fl.below fl.zero_f a ≡ true
      → fl.at_most a b ≡ true
      → pacing_interval fl b ≤ pacing_interval fl a
  unfolding pacing_interval
  pacing_interval_antitone a b h k =
      let x = fl.over (fl.of_nat second) b in
      let y = fl.over (fl.of_nat second) a in
      let top = fl.of_nat max_duration in
      let nonneg = laws.order.below_at_most fl.zero_f a h in
      let same = laws.order.at_most_refl a nonneg in
      ground (
        arith,
        laws.over_antitone second a b (omega arith) (omega arith) h k,
        laws.over_antitone second a a (omega arith) (omega arith) h same,
        laws.inf_top x top,
        laws.of_nat-nonneg max_duration (omega arith),
        laws.order.at_most_trans top x y,
        laws.order.at_most_trans x y (fl.of_nat 1),
        laws.ceil_mono x y,
        laws.ceil_bounds x,
        laws.ceil_bounds y,
      )

  -- For every rate above zero the interval is at least a nanosecond and at most the longest
  -- Duration: it never wraps.
  pub pacing_interval_bounds :
      (a : F)
      → fl.below fl.zero_f a ≡ true
      → (1 ≤ pacing_interval fl a) × (pacing_interval fl a ≤ max_duration)
  unfolding pacing_interval
  pacing_interval_bounds a h =
      let same = laws.order.at_most_refl a (laws.order.below_at_most fl.zero_f a h) in
      ground (
        arith,
        laws.over_antitone second a a (omega arith) (omega arith) h same,
        laws.ceil_bounds (fl.over (fl.of_nat second) a),
      )

  -- A sixteenth of the configured rate is a number above zero.
  abbrev pub HasFloor : Limiter F → Type 0
  HasFloor l = fl.below fl.zero_f (fl.over l.base_qps (fl.of_nat 16)) ≡ true

  current_above_zero :
      (l : Limiter F) → HasFloor l → IsInRange l → fl.below fl.zero_f l.current_qps ≡ true
  current_above_zero l f v =
      laws.order.above_zero (fl.over l.base_qps (fl.of_nat 16)) l.current_qps f v.above_floor

  step-base_qps : (l : Limiter F) (e : Event) → (step fl l e).base_qps ≡ l.base_qps
  unfolding step take_or_delay recover on_rate_limited
  step-base_qps l (attempts now) = ground arith
  step-base_qps l (limited now retry_after) = refl

  limited-next : (l : Limiter F) (now : ℕ) (r : ℤ) → (step fl l (limited now r)).next ≡ l.next
  unfolding step on_rate_limited
  limited-next l now r = refl

  recover-base_qps : (l : Limiter F) (now : ℕ) → (recover fl l now).base_qps ≡ l.base_qps
  unfolding recover
  recover-base_qps l now = ground arith

  -- A grant moves the pacing on by the interval of the configured rate at least.
  take-next :
      (l : Limiter F) (now : ℕ)
      → HasFloor l
      → IsInRange l
      → (take_or_delay fl l now).1 ≡ true
      → now + pacing_interval fl l.base_qps ≤ (take_or_delay fl l now).2.next
  unfolding take_or_delay
  take-next l now f v h =
      let w = recover-IsInRange l now v in
      let same = recover-base_qps l now in
      let floor : HasFloor (recover fl l now) = rw same f in
      ground (
        arith,
        same,
        pacing_interval_antitone (recover fl l now).current_qps (recover fl l now).base_qps
            (current_above_zero (recover fl l now) floor w) w.below_base,
      )

  grants_at-SpacedFrom :
      (base : F) (l : Limiter F) (es : List Event)
      → l.base_qps ≡ base
      → HasFloor l
      → IsInRange l
      → SpacedFrom (pacing_interval fl base) l.next (grants fl l es)
  unfolding grants
  grants_at-SpacedFrom base l [] b f v = tt
  grants_at-SpacedFrom base l (limited now r ∷ es) b f v =
      let after = step fl l (limited now r) in
      SpacedFrom-le _ after.next l.next (grants fl after es) (omega (arith, limited-next l now r)) (
        grants_at-SpacedFrom base after es (step-base_qps l (limited now r) ∙ b)
          (rw (step-base_qps l (limited now r)) f) (step-IsInRange l (limited now r) v))
  grants_at-SpacedFrom base l (attempts now ∷ es) b f v =
      let after = step fl l (attempts now) in
      let rest =
        grants_at-SpacedFrom base after es (step-base_qps l (attempts now) ∙ b)
          (rw (step-base_qps l (attempts now)) f) (step-IsInRange l (attempts now) v) in
      elim (Bool-cases (take_or_delay fl l now).1) [
        | inl e ↦ rw e (
          (take_granted fl l now e).0,
          SpacedFrom-le _ after.next _ (grants fl after es)
              (omega (arith, take-next l now f v e, ap (pacing_interval fl) b)) rest,
        )
        | inr e ↦ rw e (
            SpacedFrom-le _ after.next _ (grants fl after es)
              (omega (arith, (take_refused fl l now e).0)) rest)
      ]

  -- Between two tokens that follow one another, in any run of attempts and rate limits, at least
  -- the pacing interval of the configured rate passes; the first comes no earlier than `next` says
  -- (for a limiter whose effective rate is in range, and a configured rate of which a sixteenth does
  -- not round to zero).
  pub grants-SpacedFrom :
      (l : Limiter F) (es : List Event)
      → HasFloor l
      → IsInRange l
      → SpacedFrom (pacing_interval fl l.base_qps) l.next (grants fl l es)
  grants-SpacedFrom l es f v = grants_at-SpacedFrom l.base_qps l es refl f v
