-- ===== src/Limiter/Spacing.antt =====
-- When tokens are granted: the pacing, the cooldown, and what a refused caller is told.
use qiniu_exporter.Base.{
  All, All-imp, Bool-cases, List, [], arith, false, if◌then◌else◌, inl, inr, true, ℕ, ◌*◌, ◌+◌, ◌<◌,
  ◌∷◌, ◌≡◌, ◌≤◌,
}
use qiniu_exporter.Base.Floats.{Floats}
use qiniu_exporter.Base.Int.{pos_part, ℤ}
use qiniu_exporter.Base.Time.{max_duration, second}
use qiniu_exporter.Limiter.{Limiter, allowed_at, cooldown, on_rate_limited, recover, take_or_delay}

-- The first is not before t, and each is `gap` after the one before it at least.
abbrev pub SpacedFrom : ℕ → ℕ → List ℕ → Type 0
SpacedFrom gap t [] = Unit
SpacedFrom gap t (g ∷ gs) = (t ≤ g) × SpacedFrom gap (g + gap) gs

pub SpacedFrom-le : (gap t u : ℕ) (gs : List ℕ) → u ≤ t → SpacedFrom gap t gs → SpacedFrom gap u gs
SpacedFrom-le gap t u [] h k = tt
SpacedFrom-le gap t u (g ∷ gs) h (p, k) = (omega arith, k)

pub data Event : Type 0 where
  attempts : ℕ → Event
  limited : ℕ → ℤ → Event

module _ {F : Type 0} (fl : Floats F) where
  unfoldable pub step : Limiter F → Event → Limiter F
  step l (attempts now) = (take_or_delay fl l now).2
  step l (limited now retry_after) = on_rate_limited fl l now retry_after

  unfoldable pub run : Limiter F → List Event → Limiter F
  unfolding step
  run l [] = l
  run l (e ∷ es) = run (step l e) es

  -- The instants at which a run of events grants a token.
  unfoldable pub grants : Limiter F → List Event → List ℕ
  unfolding step
  grants l [] = []
  grants l (attempts now ∷ es) =
      let rest = grants (step l (attempts now)) es in
      if (take_or_delay fl l now).1 then now ∷ rest else rest
  grants l (limited now retry_after ∷ es) = grants (step l (limited now retry_after)) es

  recover-keeps :
      (l : Limiter F) (now : ℕ)
      → ((recover fl l now).next ≡ l.next) × ((recover fl l now).cooldown_until ≡ l.cooldown_until)
  unfolding recover
  recover-keeps l now = ground arith

  -- A grant is made no earlier than the pacing and the cooldown allow.
  pub take_granted :
      (l : Limiter F) (now : ℕ)
      → (take_or_delay fl l now).1 ≡ true
      → (l.next ≤ now) × (l.cooldown_until ≤ now)
  unfolding take_or_delay allowed_at recover
  take_granted l now h = ground (arith, recover-keeps l now)

  step-cooldown_until : (l : Limiter F) (e : Event) → l.cooldown_until ≤ (step l e).cooldown_until
  unfolding step take_or_delay on_rate_limited
  step-cooldown_until l (attempts now) = ground (arith, recover-keeps l now)
  step-cooldown_until l (limited now retry_after) = ground arith

  grants_from :
      (t : ℕ) (l : Limiter F) (es : List Event)
      → t ≤ l.cooldown_until
      → All (λ g. t ≤ g) (grants l es)
  unfolding grants
  grants_from t l [] h = tt
  grants_from t l (attempts now ∷ es) h =
      let later =
        grants_from t (step l (attempts now)) es
          (omega (arith, step-cooldown_until l (attempts now))) in
      elim (Bool-cases (take_or_delay fl l now).1) [
        | inl e ↦ rw e (omega (arith, take_granted l now e), later)
        | inr e ↦ rw e later
      ]
  grants_from t l (limited now retry_after ∷ es) h =
      grants_from t (step l (limited now retry_after)) es
        (omega (arith, step-cooldown_until l (limited now retry_after)))

  on_rate_limited-cooldown_until :
      (l : Limiter F) (now : ℕ) (retry_after : ℤ)
      → now + cooldown retry_after ≤ (on_rate_limited fl l now retry_after).cooldown_until
  unfolding on_rate_limited
  on_rate_limited-cooldown_until l now retry_after = ground arith

  take_when_allowed :
      (l : Limiter F) (now : ℕ)
      → l.next ≤ now
      → l.cooldown_until ≤ now
      → (take_or_delay fl l now).1 ≡ true
  unfolding take_or_delay allowed_at
  take_when_allowed l now h k = ground (arith, recover-keeps l now)

  delay_suffices :
      (l : Limiter F) (now : ℕ)
      → (take_or_delay fl l now).1 ≡ false
      → l.next ≤ now + max_duration
      → l.cooldown_until ≤ now + max_duration
      → (l.next ≤ now + (take_or_delay fl l now).0)
        × (l.cooldown_until ≤ now + (take_or_delay fl l now).0)
  unfolding take_or_delay allowed_at
  delay_suffices l now h k c = ground (arith, recover-keeps l now)

  -- After a rate limit no token is granted before the wait that the server asked for, and five
  -- seconds at least, have passed, whatever happens in between.
  pub on_rate_limited-grants :
      (l : Limiter F) (now : ℕ) (retry_after : ℤ) (es : List Event)
      → All
          (λ g. (now + 5 * second ≤ g) × (now + pos_part retry_after ≤ g))
          (grants (on_rate_limited fl l now retry_after) es)
  on_rate_limited-grants l now retry_after es =
      let from_then =
        grants_from (now + cooldown retry_after) (on_rate_limited fl l now retry_after) es
          (on_rate_limited-cooldown_until l now retry_after) in
      All-imp (λ g p. (ground arith, ground arith))
        (grants (on_rate_limited fl l now retry_after) es) from_then

  -- A refused caller reserves nothing: the pacing and the cooldown are as before.
  pub take_refused :
      (l : Limiter F) (now : ℕ)
      → (take_or_delay fl l now).1 ≡ false
      → ((take_or_delay fl l now).2.next ≡ l.next)
        × ((take_or_delay fl l now).2.cooldown_until ≡ l.cooldown_until)
        × (0 < (take_or_delay fl l now).0)
  unfolding take_or_delay allowed_at
  take_refused l now h = ground (arith, recover-keeps l now)

  -- A refused caller that waits as long as it was told gets its token if no other call comes in
  -- between, provided that the wait fits a Duration.
  pub take_after_delay :
      (l : Limiter F) (now : ℕ)
      → (take_or_delay fl l now).1 ≡ false
      → l.next ≤ now + max_duration
      → l.cooldown_until ≤ now + max_duration
      → (take_or_delay fl (take_or_delay fl l now).2 (now + (take_or_delay fl l now).0)).1 ≡ true
  take_after_delay l now h k c =
      let told = delay_suffices l now h k c in
      let same = take_refused l now h in
      take_when_allowed (take_or_delay fl l now).2 _ (omega arith) (omega arith)
