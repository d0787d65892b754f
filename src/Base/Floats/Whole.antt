-- ===== src/Base/Floats/Whole.antt =====
-- A number type that meets the laws: whole numbers of at least 0 with an infinity and a NaN, where
-- a quotient is rounded down. It serves to run the definitions on concrete inputs.
use qiniu_exporter.Base.{
  Bool, arith, false, leb, ltb, refl, suc, true, zero, ℕ, ◌*◌, ◌+◌, ◌/◌, ◌==◌, ◌≡◌, ◌≤◌,
}
use qiniu_exporter.Base.Floats.{Floats}
use qiniu_exporter.Base.Floats.Laws.{NonnegLaws, OrderLaws}
use qiniu_exporter.Base.Time.{max_duration}

pub data Whole : Type 0 where
  fin : ℕ → Whole
  infinite undefined : Whole

abbrev plus_w : Whole → Whole → Whole
plus_w (fin a) (fin b) = fin (a + b)
plus_w undefined _ = undefined
plus_w _ undefined = undefined
plus_w _ _ = infinite

abbrev times_w : Whole → Whole → Whole
times_w (fin a) (fin b) = fin (a * b)
times_w undefined _ = undefined
times_w _ undefined = undefined
times_w (fin zero) infinite = undefined
times_w infinite (fin zero) = undefined
times_w _ _ = infinite

abbrev over_w : Whole → Whole → Whole
over_w (fin zero) (fin zero) = undefined
over_w (fin (suc a)) (fin zero) = infinite
over_w (fin a) (fin (suc b)) = fin (a / suc b)
over_w (fin a) infinite = fin 0
over_w infinite (fin b) = infinite
over_w _ _ = undefined

abbrev below_w : Whole → Whole → Bool
below_w (fin a) (fin b) = ltb a b
below_w (fin a) infinite = true
below_w _ _ = false

abbrev at_most_w : Whole → Whole → Bool
at_most_w (fin a) (fin b) = leb a b
at_most_w (fin a) infinite = true
at_most_w infinite infinite = true
at_most_w _ _ = false

abbrev same_w : Whole → Whole → Bool
same_w (fin a) (fin b) = a == b
same_w infinite infinite = true
same_w _ _ = false

abbrev is_nan_w : Whole → Bool
is_nan_w undefined = true
is_nan_w _ = false

abbrev is_inf_w : Whole → Bool
is_inf_w infinite = true
is_inf_w _ = false

abbrev ceil_w : Whole → ℕ
ceil_w (fin n) = n
ceil_w _ = 0

abbrev pub whole_floats : Floats Whole
whole_floats = record {
  zero_f = fin 0;
  plus = plus_w;
  times = times_w;
  over = over_w;
  below = below_w;
  at_most = at_most_w;
  same = same_w;
  is_nan = is_nan_w;
  is_inf = is_inf_w;
  of_nat = fin;
  ceil_nat = ceil_w;
}

total_w :
    (a b : Whole)
    → at_most_w (fin 0) a ≡ true
    → at_most_w (fin 0) b ≡ true
    → at_most_w a b ≡ false
    → at_most_w b a ≡ true
total_w a b h k e = ground arith

trans_w : (a b c : Whole) → at_most_w a b ≡ true → at_most_w b c ≡ true → at_most_w a c ≡ true
trans_w a b c h k = ground arith

refl_w : (a : Whole) → at_most_w (fin 0) a ≡ true → at_most_w a a ≡ true
refl_w a h = ground arith

not_below_w :
    (a b : Whole)
    → at_most_w (fin 0) a ≡ true
    → at_most_w (fin 0) b ≡ true
    → below_w a b ≡ false
    → at_most_w b a ≡ true
not_below_w a b h k e = ground arith

below_at_most_w : (a b : Whole) → below_w a b ≡ true → at_most_w a b ≡ true
below_at_most_w a b h = ground arith

div-le : (a n : ℕ) → a / suc n ≤ a
div-le a n = grind arith

le-mul : (a n : ℕ) → 1 ≤ n → a ≤ a * n
le-mul a n h = grind arith

div_antitone : (n a b : ℕ) → a ≤ b → n / suc b ≤ n / suc a
div_antitone n a b h = grind arith

over_nat_w :
    (a : Whole) (n : ℕ)
    → at_most_w (fin 0) a ≡ true
    → 1 ≤ n
    → n ≤ max_duration
    → (at_most_w (fin 0) (over_w a (fin n)) ≡ true) × (at_most_w (over_w a (fin n)) a ≡ true)
over_nat_w a zero h k b = absurd (omega arith)
over_nat_w (fin zero) (suc n) h k b = ground (arith, div-le 0 n)
over_nat_w (fin (suc a)) (suc n) h k b = ground (arith, div-le (suc a) n)
over_nat_w infinite (suc n) h k b = (refl, refl)
over_nat_w undefined (suc n) h k b = cc

times_nat_w :
    (a : Whole) (n : ℕ)
    → at_most_w (fin 0) a ≡ true
    → 1 ≤ n
    → n ≤ max_duration
    → (at_most_w (fin 0) (times_w a (fin n)) ≡ true) × (at_most_w a (times_w a (fin n)) ≡ true)
times_nat_w (fin a) n h k b = ground (arith, le-mul a n)
times_nat_w infinite zero h k b = absurd (omega arith)
times_nat_w infinite (suc n) h k b = (refl, refl)
times_nat_w undefined n h k b = cc

over_antitone_w :
    (n : ℕ) (a b : Whole)
    → 1 ≤ n
    → n ≤ max_duration
    → below_w (fin 0) a ≡ true
    → at_most_w a b ≡ true
    → (at_most_w (fin 0) (over_w (fin n) b) ≡ true)
      × (at_most_w (over_w (fin n) b) (over_w (fin n) a) ≡ true)
over_antitone_w zero a b p q h k = absurd (omega arith)
over_antitone_w (suc n) (fin zero) b p q h k = cc
over_antitone_w (suc n) (fin (suc a)) (fin zero) p q h k = absurd (ground arith)
over_antitone_w (suc n) (fin (suc a)) (fin (suc b)) p q h k =
    ground (arith, div_antitone (suc n) a b)
over_antitone_w (suc n) (fin (suc a)) infinite p q h k = ground arith
over_antitone_w (suc n) (fin (suc a)) undefined p q h k = ground arith
over_antitone_w (suc n) infinite infinite p q h k = (refl, refl)
over_antitone_w (suc n) infinite (fin b) p q h k = cc
over_antitone_w (suc n) infinite undefined p q h k = cc
over_antitone_w (suc n) undefined b p q h k = cc

inf_top_w :
    (x y : Whole)
    → is_inf_w x ≡ true
    → at_most_w (fin 0) x ≡ true
    → at_most_w (fin 0) y ≡ true
    → at_most_w y x ≡ true
inf_top_w x y i h k = ground arith

ceil_mono_w :
    (x y : Whole)
    → at_most_w (fin 0) x ≡ true
    → at_most_w x y ≡ true
    → at_most_w (fin max_duration) y ≡ false
    → ceil_w x ≤ ceil_w y
ceil_mono_w x y h k l = ground arith

ceil_bounds_w :
    (x : Whole)
    → at_most_w (fin 0) x ≡ true
    → at_most_w x (fin 1) ≡ false
    → at_most_w (fin max_duration) x ≡ false
    → (1 ≤ ceil_w x) × (ceil_w x ≤ max_duration)
ceil_bounds_w x h k l = ground arith

above_zero_w :
    (a b : Whole) → below_w (fin 0) a ≡ true → at_most_w a b ≡ true → below_w (fin 0) b ≡ true
above_zero_w a b h k = ground arith

pub whole-OrderLaws : OrderLaws whole_floats
whole-OrderLaws = record {
  at_most_total = total_w;
  at_most_trans = trans_w;
  at_most_refl = refl_w;
  not_below = not_below_w;
  below_at_most = below_at_most_w;
  above_zero = above_zero_w;
}

pub whole-NonnegLaws : NonnegLaws whole_floats
whole-NonnegLaws = record {
  order = whole-OrderLaws;
  over_nat = over_nat_w;
  times_nat = times_nat_w;
  over_antitone = over_antitone_w;
  of_nat-nonneg = λ n h. ground arith;
  inf_top = inf_top_w;
  ceil_mono = ceil_mono_w;
  ceil_bounds = ceil_bounds_w;
}
