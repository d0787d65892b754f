-- ===== src/AuthHttp/Slots/Held.antt =====
-- What the client holds of its limiters' slots, and gives back.
use qiniu_exporter.AuthHttp.Slots.{Heap, holds, put, release_all}
use qiniu_exporter.Base.{
  Bool, Bool-cases, List, [], arith, false, inl, inr, subst, true, ℕ, ◌==◌, ◌||◌, ◌∷◌, ◌≡◌,
}
use qiniu_exporter.Limiter.{Limiter, release}

-- No limiter is held twice.
abbrev pub IsOnce : List ℕ → Type 0
IsOnce [] = Unit
IsOnce (i ∷ is) = (holds i is ≡ false) × IsOnce is

-- The slots in use of a limiter that is held or not, once it is released where it is held.
abbrev pub unheld : {F : Type 0} → Bool → Limiter F → ℕ
unheld true l = (release l).held
unheld false l = l.held

-- The same slots are in use of every limiter of the two stores, and may be.
abbrev pub SameSlots : {F : Type 0} → Heap F → Heap F → Type 0
SameSlots a b = (i : ℕ) → ((a i).capacity ≡ (b i).capacity) × ((a i).held ≡ (b i).held)

-- Beyond the slots in use of `before`, exactly one of every limiter in the list is.
pub record AreHeld {F : Type 0} (before : Heap F) (held : List ℕ) (store : Heap F) : Type 0 where
  pub once : IsOnce held
  pub capacities : (i : ℕ) → (store i).capacity ≡ (before i).capacity
  pub slots : (i : ℕ) → unheld (holds i held) (store i) ≡ (before i).held

release-capacity : {F : Type 0} (l : Limiter F) → (release l).capacity ≡ l.capacity
release-capacity l = ground arith

pub same_path : (i j : ℕ) → (j == i) ≡ true → i ≡ j
same_path i j e = ground arith

newest-slots :
    {F : Type 0} (before : Heap F) (i : ℕ) (is : List ℕ) (store : Heap F)
    → AreHeld before (i ∷ is) store
    → unheld (holds i is) (release (store i)) ≡ (before i).held
unfolding holds
newest-slots before i is store h =
    let e : (i == i) ≡ true = ground arith in
    let at_i : unheld (i == i || holds i is) (store i) ≡ (before i).held = h.slots i in
    rw h.once.0 (rw e at at_i)

other-slots :
    {F : Type 0} (before : Heap F) (i j : ℕ) (is : List ℕ) (store : Heap F)
    → (j == i) ≡ false
    → AreHeld before (i ∷ is) store
    → unheld (holds j is) (store j) ≡ (before j).held
unfolding holds
other-slots before i j is store e h =
    let e' : (i == j) ≡ false = ground arith in
    let at_j : unheld (i == j || holds j is) (store j) ≡ (before j).held = h.slots j in
    rw e' at at_j

release_all-AreHeld :
    {F : Type 0} (before : Heap F) (i : ℕ) (is : List ℕ) (store : Heap F)
    → AreHeld before (i ∷ is) store
    → AreHeld before is (put i (release (store i)) store)
unfolding holds
release_all-AreHeld before i is store h = record {
  once = h.once.1;
  capacities = λ j. ground (arith, h.capacities i, h.capacities j, release-capacity (store i));
  slots = λ j. elim (Bool-cases (j == i)) [
    | inl e ↦ rw e (
        subst (λ k. unheld (holds k is) (release (store i)) ≡ (before k).held) (same_path i j e)
          (newest-slots before i is store h))
    | inr e ↦ rw e (other-slots before i j is store e h)
  ];
}

pub release_all-SameSlots :
    {F : Type 0} (before : Heap F) (is : List ℕ) (store : Heap F)
    → AreHeld before is store
    → SameSlots (release_all is store) before
unfolding release_all holds
release_all-SameSlots before [] store h i = (h.capacities i, h.slots i)
release_all-SameSlots before (j ∷ is) store h i =
    release_all-SameSlots before is (put j (release (store j)) store)
      (release_all-AreHeld before j is store h) i
