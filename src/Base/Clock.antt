-- ===== src/Base/Clock.antt =====
-- Go's time package, as far as the program uses it. A Time is its distance from the zero Time in
-- nanoseconds, a Duration an int64 number of nanoseconds.
use Prim.Native.Nat.{ℕ, ◌^◌, ◌-◌, ◌+◌, ◌≤◌, ◌<◌}
use mathlib.Core.Path.{◌≡◌}
use native.Mathlib.Omega.{arith}
use mathlib.Core.Bool.{Bool}
use pin_go.Base.Tests.{if◌then◌else◌}
use pin_go.Base.Int.{
  ℤ, pos, negsuc, ◌+ℤ◌, ◌-ℤ◌, -ℤ_parts, ◌≤ℤ◌, pos_part, neg_part, ltb_ℤ, eqb_ℤ, quot,
}

abbrev pub Time : Type 0
Time = ℤ

abbrev pub Duration : Type 0
Duration = ℤ

abbrev pub second : Duration
second = pos 1_000_000_000

abbrev pub millisecond : Duration
millisecond = pos 1_000_000

abbrev pub zero_time : Time
zero_time = pos 0

-- `t.IsZero()`.
abbrev pub is_zero : Time → Bool
is_zero t = eqb_ℤ t zero_time

-- `t.After(u)`, and `t.Before(u)` is `after u t`.
abbrev pub after : Time → Time → Bool
after t u = ltb_ℤ u t

-- `t.Add(d)`.
abbrev pub add_time : Time → Duration → Time
add_time t d = t +ℤ d

-- A result outside the range of a Duration is its nearest end.
abbrev saturate : ℤ → Duration
saturate a =
    if ltb_ℤ (pos (2 ^ 63 - 1)) a
    then pos (2 ^ 63 - 1)
    else if ltb_ℤ a (negsuc (2 ^ 63 - 1))
    then negsuc (2 ^ 63 - 1)
    else a

-- `t.Sub(u)`.
unfoldable pub sub_time : Time → Time → Duration
sub_time t u = saturate (t -ℤ u)

-- `int64(d.Seconds())`: the whole seconds of a duration. The source goes through a float64, which
-- gives the same number for every duration below 2 ^ 23 seconds.
abbrev pub whole_seconds : Duration → ℤ
whole_seconds d = quot d second

-- The nanoseconds from `u` to `t`.
abbrev pub elapsed : Time → Time → ℕ
elapsed t u = pos_part t + neg_part u - (pos_part u + neg_part t)

-- Forwards in time a difference is not negative, and at most the time elapsed.
pub sub_time-le :
    (t u : Time) → u ≤ℤ t → (m : ℕ) × (sub_time t u ≡ pos m) × (m ≤ elapsed t u) × (m < 2 ^ 63)
unfolding sub_time
sub_time-le t u h = (
  pos_part (sub_time t u),
  ground (arith, -ℤ_parts t u),
  ground (arith, -ℤ_parts t u),
  ground (arith, -ℤ_parts t u),
)
