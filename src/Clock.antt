-- ===== src/Clock.antt =====
-- Go's `time.Time` as nanoseconds since the Unix epoch and `time.Duration` as nanoseconds, and what
-- pool/ uses of them. Every reading of the clock is an argument of the operation that makes it.
use vipnode.Base.{ℕ, ◌*◌, ◌-◌, ◌^◌, Bool, if◌then◌else◌}
use vipnode.Int.{ℤ, pos, negsuc, ◌-ℤ◌, ltb_ℤ}

abbrev pub Time : Type 0
Time = ℤ

abbrev pub second : ℕ
second = 1_000_000_000

-- The zero `time.Time`, the first of January of the year 1.
abbrev pub zero_time : Time
zero_time = negsuc (62_135_596_800 * second - 1)

-- `t.After(u)`
unfoldable pub after : Time → Time → Bool
after t u = ltb_ℤ u t

-- `t.Before(u)`
unfoldable pub before : Time → Time → Bool
before t u = ltb_ℤ t u

-- The bounds of a `time.Duration`, an int64.
abbrev pub max_duration : ℤ
max_duration = pos (2 ^ 63 - 1)

abbrev pub min_duration : ℤ
min_duration = negsuc (2 ^ 63 - 1)

-- `t.Sub(u)`, which saturates at the bounds of a duration.
unfoldable pub sub_time : Time → Time → ℤ
sub_time t u =
    if ltb_ℤ max_duration (t -ℤ u)
    then max_duration
    else if ltb_ℤ (t -ℤ u) min_duration
    then min_duration
    else t -ℤ u
