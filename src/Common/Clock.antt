-- ===== src/Common/Clock.antt =====
-- Go's time package, as far as the program uses it. An instant is its distance in nanoseconds from
-- the zero Time (1 January of year 1, UTC); a Duration is an int64 count of nanoseconds. `UTC()`
-- changes the location only, so it is not written. Instants do not overflow in Go's range of years.
use Prim.Native.Nat.{ℕ}
use mathlib.Core.Bool.{Bool}
use service_reliability_watc.Common.Int.{
  ℤ, pos, ◌+ℤ◌, ◌-ℤ◌, ltb_ℤ, eq_ℤ, neg_part, pos_part, sub_ℕ, saturate,
}

abbrev pub Time : Type 0
Time = ℤ

abbrev pub Duration : Type 0
Duration = ℤ

abbrev pub zero_time : Time
zero_time = pos 0

-- `t.IsZero()`, `t.Before(u)`, `t.After(u)`, `t.Sub(u)`, `t.Add(d)`.
abbrev pub is_zero : Time → Bool
is_zero t = eq_ℤ t zero_time

abbrev pub before : Time → Time → Bool
before t u = ltb_ℤ t u

abbrev pub after : Time → Time → Bool
after t u = ltb_ℤ u t

unfoldable pub since : Time → Time → Duration
unfolding saturate ◌-ℤ◌
since t u = saturate (t -ℤ u)

unfoldable pub add : Time → Duration → Time
unfolding ◌+ℤ◌
add t d = t +ℤ d

-- `-d`, which the callers apply to durations far inside the range.
abbrev pub negated : Duration → Duration
negated d = sub_ℕ (neg_part d) (pos_part d)

abbrev pub millisecond : ℕ
millisecond = 1_000_000

abbrev pub second : ℕ
second = 1_000_000_000

abbrev pub minute : ℕ
minute = 60_000_000_000

abbrev pub hour : ℕ
hour = 3_600_000_000_000
