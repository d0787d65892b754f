-- ===== src/Base/Time.antt =====
-- time.Time as a count of nanoseconds, and time.Duration. Instants are counted from the start of
-- the 400-year Gregorian cycle that ends with the year 1, so Go's zero time (0001-01-01 00:00 UTC)
-- is `zero_time` and every time that a four-digit layout can spell is a number.
use Prim.Native.Nat.{ℕ, ◌-◌, min}
use mathlib.Core.Bool.{Bool}
use qiniu_exporter.Base.Tests.{◌==◌}

abbrev pub second : ℕ
second = 1_000_000_000

abbrev pub minute : ℕ
minute = 60_000_000_000

abbrev pub hour : ℕ
hour = 3_600_000_000_000

abbrev pub day : ℕ
day = 86_400_000_000_000

-- 146097 days, one cycle.
abbrev pub zero_time : ℕ
zero_time = 12_622_780_800_000_000_000

abbrev pub is_zero_time : ℕ → Bool
is_zero_time t = t == zero_time

-- math.MaxInt64, the longest time.Duration.
abbrev pub max_duration : ℕ
max_duration = 9_223_372_036_854_775_807

-- `a.Sub(b)` for a not before b: a Duration saturates. (For a before b this is 0 and Go's
-- difference is negative.)
abbrev pub since : ℕ → ℕ → ℕ
since a b = min (a - b) max_duration
