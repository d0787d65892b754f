-- ===== src/AuthHttp/Slots/Taken.antt =====
-- What the method `acquire` takes: one slot of every limiter that the attempt is under, or none.
use qiniu_exporter.AuthHttp.Slots.{
  Heap, Holding, Limiters, Taking, Visit, holds, or_release, put, release_all, same_pointer,
  take_slot, take_slots, took,
}
use qiniu_exporter.AuthHttp.Slots.Held.{
  AreHeld, SameSlots, release_all-SameSlots, same_path, unheld,
}
use qiniu_exporter.Base.{
  Bool, Bool-cases, List, Option, [], arith, false, if◌then◌else◌, inl, inr, none, refl, some,
  subst, true, ℕ, ◌==◌, ◌∙◌, ◌∷◌, ◌≡◌,
}
use qiniu_exporter.Base.Floats.{Floats}
use qiniu_exporter.Base.Result.{err, ok, ◌>>=◌}
use qiniu_exporter.Limiter.{
  Limiter, Outcome, acquire, acquired, cancelled_err, new, release, waiting,
}
use qiniu_exporter.Limiter.Gate.{acquire-release, acquire_cancelled}

-- While the method runs: an error has left what is held so far.
abbrev IsTaking : {F : Type 0} → Heap F → Taking F → Type 0
IsTaking before (ok h) = AreHeld before h.held h.store
IsTaking before (err (cancelled_err, h)) = AreHeld before h.held h.store
IsTaking before (err (waiting, h)) = Unit
IsTaking before (err (acquired, h)) = ⊥

-- Once it has returned: an error has left nothing held.
abbrev pub IsBalanced : {F : Type 0} → Heap F → Taking F → Type 0
IsBalanced before (ok h) = AreHeld before h.held h.store
IsBalanced before (err (cancelled_err, h)) = SameSlots h.store before
IsBalanced before (err (waiting, h)) = Unit
IsBalanced before (err (acquired, h)) = ⊥

or_release-IsBalanced :
    {F : Type 0} (before : Heap F) (r : Taking F)
    → IsTaking before r
    → IsBalanced before (or_release r)
or_release-IsBalanced before (ok h) is = is
or_release-IsBalanced before (err (cancelled_err, h)) is =
    release_all-SameSlots before h.held h.store is
or_release-IsBalanced before (err (waiting, h)) is = tt
or_release-IsBalanced before (err (acquired, h)) is = absurd is

free-slots :
    {F : Type 0} (before : Heap F) (i : ℕ) (is : List ℕ) (store : Heap F)
    → AreHeld before is store
    → holds i is ≡ false
    → (store i).held ≡ (before i).held
free-slots before i is store h new =
    let at_i : unheld (holds i is) (store i) ≡ (before i).held = h.slots i in rw new at at_i

put-SameSlots :
    {F : Type 0} (before : Heap F) (i : ℕ) (l : Limiter F) (is : List ℕ) (store : Heap F)
    → AreHeld before is store
    → holds i is ≡ false
    → l.capacity ≡ (store i).capacity
    → l.held ≡ (store i).held
    → AreHeld before is (put i l store)
put-SameSlots before i l is store h new cap slots = record {
  once = h.once;
  capacities = λ j. ground (arith, cap, h.capacities i, h.capacities j);
  slots = λ j. elim (Bool-cases (j == i)) [
    | inr e ↦ rw e (h.slots j)
    | inl e ↦ rw e (
        subst (λ k. unheld (holds k is) l ≡ (before k).held) (same_path i j e)
          (rw new (slots ∙ (free-slots before i is store h new))))
  ];
}

put-AreHeld :
    {F : Type 0} (before : Heap F) (i : ℕ) (l : Limiter F) (is : List ℕ) (store : Heap F)
    → AreHeld before is store
    → holds i is ≡ false
    → l.capacity ≡ (store i).capacity
    → (release l).held ≡ (store i).held
    → AreHeld before (i ∷ is) (put i l store)
unfolding holds
put-AreHeld before i l is store h new cap slots = record {
  once = (new, h.once);
  capacities = λ j. ground (arith, cap, h.capacities i, h.capacities j);
  slots = λ j. elim (Bool-cases (j == i)) [
    | inr e ↦ let e' : (i == j) ≡ false = ground arith in rw (e, e') (h.slots j)
    | inl e ↦
        let e' : (i == j) ≡ true = ground arith in
        rw (e, e')
          (slots
            ∙ subst (λ k. (store i).held ≡ (before k).held) (same_path i j e)
                (free-slots before i is store h new))
  ];
}

took-IsTaking :
    {F : Type 0} (before : Heap F) (i : ℕ) (h : Holding F) (r : Outcome × Limiter F)
    → AreHeld before h.held h.store
    → holds i h.held ≡ false
    → r.1.capacity ≡ (h.store i).capacity
    → (r.0 ≡ acquired → (release r.1).held ≡ (h.store i).held)
    → (r.0 ≡ cancelled_err → r.1.held ≡ (h.store i).held)
    → IsTaking before (took i h r)
took-IsTaking before i h (acquired, l) is new cap taken left =
    put-AreHeld before i l h.held h.store is new cap (taken refl)
took-IsTaking before i h (cancelled_err, l) is new cap taken left =
    put-SameSlots before i l h.held h.store is new cap (left refl)
took-IsTaking before i h (waiting, l) is new cap taken left = tt

module _ {F : Type 0} (fl : Floats F) where
  take_slot-IsTaking :
      (visits : ℕ → Visit) (before : Heap F) (p : Option ℕ) (h : Holding F)
      → AreHeld before h.held h.store
      → IsTaking before (take_slot fl visits p h)
  unfolding take_slot
  take_slot-IsTaking visits before none h is = is
  take_slot-IsTaking visits before (some i) h is = elim (Bool-cases (holds i h.held)) [
    | inl e ↦ rw e is
    | inr e ↦
        let v = visits i in
        let (cap, taken) = acquire-release fl (h.store i) v.is_done v.entered v.rounds in
        rw e (
          took-IsTaking before i h (acquire fl (h.store i) v.is_done v.entered v.rounds) is e cap
            taken (λ q. (acquire_cancelled fl (h.store i) v.is_done v.entered v.rounds q).0))
  ]

  >>=-IsBalanced :
      (before : Heap F) (r : Taking F) (k : Holding F → Taking F)
      → IsBalanced before r
      → ((h : Holding F) → AreHeld before h.held h.store → IsBalanced before (k h))
      → IsBalanced before (r >>= k)
  >>=-IsBalanced before (ok h) k is f = f h is
  >>=-IsBalanced before (err (cancelled_err, h)) k is f = is
  >>=-IsBalanced before (err (waiting, h)) k is f = tt
  >>=-IsBalanced before (err (acquired, h)) k is f = absurd is

  if-IsBalanced :
      (before : Heap F) (b : Bool) (r r' : Taking F)
      → IsBalanced before r
      → IsBalanced before r'
      → IsBalanced before (if b then r else r')
  if-IsBalanced before true r r' is is' = is
  if-IsBalanced before false r r' is is' = is'

  took_first-IsBalanced :
      (before store : Heap F) (i : ℕ) (r : Outcome × Limiter F)
      → IsTaking before (took i (record { held = []; has_limiter = false; store = store }) r)
      → IsBalanced before (took i (record { held = []; has_limiter = false; store = store }) r)
  unfolding release_all
  took_first-IsBalanced before store i (acquired, l) is = is
  took_first-IsBalanced before store i (cancelled_err, l) is =
      release_all-SameSlots before [] (put i l store) is
  took_first-IsBalanced before store i (waiting, l) is = tt

  nothing-AreHeld : (before : Heap F) → AreHeld before [] before
  unfolding holds
  nothing-AreHeld before = record { once = tt; capacities = λ i. refl; slots = λ i. refl }

  first_slot-IsBalanced :
      (visits : ℕ → Visit) (before : Heap F) (p : Option ℕ)
      → IsBalanced before
          (take_slot fl visits p (record { held = []; has_limiter = false; store = before }))
  unfolding take_slot holds
  first_slot-IsBalanced visits before none = nothing-AreHeld before
  first_slot-IsBalanced visits before (some i) =
      took_first-IsBalanced before before i
        (acquire fl (before i) (visits i).is_done (visits i).entered (visits i).rounds)
        (take_slot-IsTaking visits before (some i)
          (record { held = []; has_limiter = false; store = before }) (nothing-AreHeld before))

  -- Where the method succeeds, exactly one slot of every limiter in its list is in use beyond those
  -- in use before, and no limiter is in the list twice, although pointers of the client may be the
  -- same; where the context ends it, at whichever of the limiters, the slots in use are those in
  -- use before.
  pub take_slots-IsBalanced :
      (c : Limiters) (visits : ℕ → Visit) (is_first : Bool) (store : Heap F)
      → IsBalanced store (take_slots fl c visits is_first store)
  unfolding take_slots
  take_slots-IsBalanced c visits is_first store =
      >>=-IsBalanced store
        (take_slot fl visits (if is_first then c.first_attempt else c.retry)
          (record { held = []; has_limiter = false; store = store }))
        _ (first_slot-IsBalanced visits store (if is_first then c.first_attempt else c.retry))
        (λ one held_one.
          >>=-IsBalanced store (or_release (take_slot fl visits c.host one)) _
            (or_release-IsBalanced store (take_slot fl visits c.host one)
              (take_slot-IsTaking visits store c.host one held_one))
            (λ two held_two.
              if-IsBalanced store (same_pointer c.endpoint c.host) (ok two)
                (or_release (take_slot fl visits c.endpoint two)) held_two
                (or_release-IsBalanced store (take_slot fl visits c.endpoint two)
                  (take_slot-IsTaking visits store c.endpoint two held_two))))
