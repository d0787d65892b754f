-- ===== src/AuthHttp/Slots/Asked.antt =====
-- Which limiters the client takes a slot of, and which it slows down.
use qiniu_exporter.AuthHttp.Slots.{
  Heap, Holding, Limiters, Taking, Visit, holds, limit, limit_rates, or_release, same_pointer,
  take_slot, take_slots, took,
}
use qiniu_exporter.AuthHttp.Slots.Held.{same_path}
use qiniu_exporter.Base.{
  Bool, Bool-cases, List, Option, [], ap, arith, false, if◌then◌else◌, inl, inr, none, refl, some,
  subst, sym, true, ℕ, ◌==◌, ◌||◌, ◌∙◌, ◌≡◌,
}
use qiniu_exporter.Base.Floats.{Floats}
use qiniu_exporter.Base.Int.{ℤ}
use qiniu_exporter.Base.Result.{>>=-eq-ok, err, ok, ok-injective}
use qiniu_exporter.Limiter.{
  Limiter, Outcome, acquire, acquired, cancelled_err, on_rate_limited, waiting,
}

-- The limiter i is the one that this pointer points to.
abbrev pub points_to : Option ℕ → ℕ → Bool
points_to none i = false
points_to (some j) i = j == i

-- The pointers of one attempt.
abbrev pub asked : Limiters → Bool → ℕ → Bool
asked c is_first i =
    points_to (if is_first then c.first_attempt else c.retry) i
    || points_to c.host i
    || points_to c.endpoint i

same_pointer-points_to :
    (a b : Option ℕ) (i : ℕ) → same_pointer a b ≡ true → points_to a i ≡ points_to b i
same_pointer-points_to none none i h = refl
same_pointer-points_to none (some j) i h = cc
same_pointer-points_to (some k) none i h = cc
same_pointer-points_to (some k) (some j) i h = ground arith

or_release-eq-ok : {F : Type 0} (r : Taking F) {h : Holding F} → or_release r ≡ ok h → r ≡ ok h
or_release-eq-ok (ok h) e = ap ok (ok-injective e)
or_release-eq-ok (err (cancelled_err, h)) e = cc
or_release-eq-ok (err (waiting, h)) e = cc
or_release-eq-ok (err (acquired, h)) e = cc

took-held :
    {F : Type 0} (i j : ℕ) (h : Holding F) (r : Outcome × Limiter F) {h' : Holding F}
    → took i h r ≡ ok h'
    → holds j h'.held ≡ (i == j || holds j h.held)
unfolding holds
took-held i j h (acquired, l) e = ap (λ (x : Holding _). holds j x.held) (sym (ok-injective e))
took-held i j h (cancelled_err, l) e = cc
took-held i j h (waiting, l) e = cc

held_already : (i j : ℕ) (is : List ℕ) → holds i is ≡ true → holds j is ≡ (i == j || holds j is)
held_already i j is h = elim (Bool-cases (i == j)) [
  | inr e ↦ rw e refl
  | inl e ↦ rw e (subst (λ k. holds k is ≡ true) (sym (same_path j i e)) h)
]

module _ {F : Type 0} (fl : Floats F) where
  take_slot-held :
      (visits : ℕ → Visit) (p : Option ℕ) (j : ℕ) (h : Holding F) {h' : Holding F}
      → take_slot fl visits p h ≡ ok h'
      → holds j h'.held ≡ (points_to p j || holds j h.held)
  unfolding take_slot
  take_slot-held visits none j h e = ap (λ (x : Holding F). holds j x.held) (sym (ok-injective e))
  take_slot-held visits (some i) j h {h' = h'} e = elim (Bool-cases (holds i h.held)) [
    | inl q ↦
        let same : h ≡ h' = ok-injective (rw q at e) in
        subst (λ (x : Holding F). holds j x.held ≡ (i == j || holds j h.held)) same
          (held_already i j h.held q)
    | inr q ↦
        let took_it : took i h
              (acquire fl (h.store i) (visits i).is_done (visits i).entered (visits i).rounds)
            ≡ ok h' =
          rw q at e in
        took-held i j h
          (acquire fl (h.store i) (visits i).is_done (visits i).entered (visits i).rounds) took_it
  ]

  end_held :
      (visits : ℕ → Visit) (p host : Option ℕ) (two : Holding F) (i : ℕ) (x b : Bool)
      {h : Holding F}
      → same_pointer p host ≡ b
      → (if b then ok two else or_release (take_slot fl visits p two)) ≡ ok h
      → holds i two.held ≡ (points_to host i || (x || false))
      → holds i h.held ≡ (points_to p i || points_to host i || x)
  end_held visits p host two i x true {h = h} same e known =
      let same_two : two ≡ h = ok-injective e in
      subst (λ (y : Holding F). holds i y.held ≡ (points_to p i || points_to host i || x)) same_two
        (ground (arith, known, same_pointer-points_to p host i same))
  end_held visits p host two i x false same e known =
      let taken = take_slot-held visits p i two (or_release-eq-ok (take_slot fl visits p two) e) in
      ground (arith, known, taken)

  -- An attempt whose slots are granted holds the limiters that its pointers point to, and no other:
  -- that of the first attempt or that of the retries, that of the host and that of the endpoint.
  pub take_slots-asked :
      (c : Limiters) (visits : ℕ → Visit) (is_first : Bool) (store : Heap F) {h : Holding F}
      → take_slots fl c visits is_first store ≡ ok h
      → (i : ℕ) → holds i h.held ≡ asked c is_first i
  unfolding take_slots holds
  take_slots-asked c visits is_first store e i =
      let start : Holding F = record { held = []; has_limiter = false; store = store } in
      let (one, e1, h1) =
        >>=-eq-ok (take_slot fl visits (if is_first then c.first_attempt else c.retry) start) _ e in
      let (two, e2, h2) = >>=-eq-ok (or_release (take_slot fl visits c.host one)) _ h1 in
      let known =
        end_held visits c.endpoint c.host two i
          (points_to (if is_first then c.first_attempt else c.retry) i)
          (same_pointer c.endpoint c.host) refl h2
          (take_slot-held visits c.host i one (or_release-eq-ok (take_slot fl visits c.host one) e2)
            ∙ ap (λ b. points_to c.host i || b)
                (take_slot-held visits (if is_first then c.first_attempt else c.retry) i start
                  e1)) in
      ground (arith, known)

  limit-at :
      (limited_at : ℕ → ℕ) (d : ℤ) (p : Option ℕ) (store : Heap F) (i : ℕ)
      → limit fl limited_at d p store i
        ≡ (if points_to p i then on_rate_limited fl (store i) (limited_at i) d else store i)
  limit-at limited_at d none store i = refl
  limit-at limited_at d (some j) store i = ground (arith, same_path i j, same_path j i)

  -- A rate limit slows the limiter of the host and that of the endpoint down, each once although
  -- they may be the same, and no other limiter.
  pub limit_rates-at :
      (c : Limiters) (limited_at : ℕ → ℕ) (d : ℤ) (store : Heap F) (i : ℕ)
      → limit_rates fl c limited_at d store i ≡ (
          if points_to c.host i || points_to c.endpoint i
          then on_rate_limited fl (store i) (limited_at i) d
          else store i)
  unfolding limit_rates
  limit_rates-at c limited_at d store i = ground (
    arith,
    limit-at limited_at d c.host store i,
    limit-at limited_at d c.endpoint store i,
    limit-at limited_at d c.endpoint (limit fl limited_at d c.host store) i,
    same_pointer-points_to c.endpoint c.host i,
  )
