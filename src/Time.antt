-- ===== src/Time.antt =====
-- `time.Time` as the nanoseconds since the zero time, and `time.Duration` as an `int64`.
use simple_volume.Base.{ℕ, ◌-◌, ◌^◌, Bool, eqb, ltb, if◌then◌else◌}
use simple_volume.Base.Int.{ℤ, pos, negsuc, sub_ℕ}

abbrev pub Time : Type 0
Time = ℕ

-- `t.IsZero()`
abbrev pub is_zero_time : Time → Bool
is_zero_time t = eqb t 0

-- `t.After(u)`
abbrev pub after : Time → Time → Bool
after t u = ltb u t

-- `t.Sub(u)`: a difference out of the range of `int64` is replaced by the nearest bound.
unfoldable pub sub_time : Time → Time → ℤ
sub_time t u =
    if ltb (2 ^ 63 - 1) (t - u)
    then pos (2 ^ 63 - 1)
    else if ltb (2 ^ 63) (u - t)
    then negsuc (2 ^ 63 - 1)
    else sub_ℕ t u

abbrev pub second : ℕ
second = 1_000_000_000

abbrev pub minute : ℕ
minute = 60_000_000_000
