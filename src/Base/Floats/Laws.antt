-- ===== src/Base/Floats/Laws.antt =====
-- What IEEE 754 promises of the operations on values of at least 0, as far as the theorems use it.
-- `at_most zero_f x` says that x is such a value, also of a negative zero; a NaN is none. A divisor
-- is above zero, since a quotient by a negative zero is a negative infinity, and a whole number is
-- at most `max_duration`, for which `of_nat` is finite.
use qiniu_exporter.Base.{false, true, ℕ, ◌≡◌, ◌≤◌}
use qiniu_exporter.Base.Floats.{Floats}
use qiniu_exporter.Base.Time.{max_duration}

-- Of the comparisons alone.
pub record OrderLaws {F : Type 0} (fl : Floats F) : Type 0 where
  pub at_most_total :
      (a b : F)
      → fl.at_most fl.zero_f a ≡ true
      → fl.at_most fl.zero_f b ≡ true
      → fl.at_most a b ≡ false
      → fl.at_most b a ≡ true
  pub at_most_trans :
      (a b c : F) → fl.at_most a b ≡ true → fl.at_most b c ≡ true → fl.at_most a c ≡ true
  pub at_most_refl : (a : F) → fl.at_most fl.zero_f a ≡ true → fl.at_most a a ≡ true
  pub not_below :
      (a b : F)
      → fl.at_most fl.zero_f a ≡ true
      → fl.at_most fl.zero_f b ≡ true
      → fl.below a b ≡ false
      → fl.at_most b a ≡ true
  pub below_at_most : (a b : F) → fl.below a b ≡ true → fl.at_most a b ≡ true
  pub above_zero :
      (a b : F) → fl.below fl.zero_f a ≡ true → fl.at_most a b ≡ true → fl.below fl.zero_f b ≡ true

pub record NonnegLaws {F : Type 0} (fl : Floats F) : Type 0 where
  pub order : OrderLaws fl
  pub over_nat :
      (a : F) (n : ℕ)
      → fl.at_most fl.zero_f a ≡ true
      → 1 ≤ n
      → n ≤ max_duration
      → (fl.at_most fl.zero_f (fl.over a (fl.of_nat n)) ≡ true)
        × (fl.at_most (fl.over a (fl.of_nat n)) a ≡ true)
  pub times_nat :
      (a : F) (n : ℕ)
      → fl.at_most fl.zero_f a ≡ true
      → 1 ≤ n
      → n ≤ max_duration
      → (fl.at_most fl.zero_f (fl.times a (fl.of_nat n)) ≡ true)
        × (fl.at_most a (fl.times a (fl.of_nat n)) ≡ true)
  pub over_antitone :
      (n : ℕ) (a b : F)
      → 1 ≤ n
      → n ≤ max_duration
      → fl.below fl.zero_f a ≡ true
      → fl.at_most a b ≡ true
      → (fl.at_most fl.zero_f (fl.over (fl.of_nat n) b) ≡ true)
        × (fl.at_most (fl.over (fl.of_nat n) b) (fl.over (fl.of_nat n) a) ≡ true)
  pub of_nat-nonneg : (n : ℕ) → n ≤ max_duration → fl.at_most fl.zero_f (fl.of_nat n) ≡ true
  pub inf_top :
      (x y : F)
      → fl.is_inf x ≡ true
      → fl.at_most fl.zero_f x ≡ true
      → fl.at_most fl.zero_f y ≡ true
      → fl.at_most y x ≡ true
  pub ceil_mono :
      (x y : F)
      → fl.at_most fl.zero_f x ≡ true
      → fl.at_most x y ≡ true
      → fl.at_most (fl.of_nat max_duration) y ≡ false
      → fl.ceil_nat x ≤ fl.ceil_nat y
  pub ceil_bounds :
      (x : F)
      → fl.at_most fl.zero_f x ≡ true
      → fl.at_most x (fl.of_nat 1) ≡ false
      → fl.at_most (fl.of_nat max_duration) x ≡ false
      → (1 ≤ fl.ceil_nat x) × (fl.ceil_nat x ≤ max_duration)
