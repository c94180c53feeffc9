-- ===== src/Prelude/Time.antt =====
-- Go's time.Time and time.Duration. An instant is its nanoseconds from the zero time, so `0` is
-- the zero time; instants before it are not modelled. A duration is an int64 of nanoseconds.
use Prim.Native.Nat.{ℕ, ◌+◌, ◌-◌, ◌*◌, ◌^◌, min}
use mathlib.Core.Bool.{Bool}
use setec.Prelude.Tests.{ltb, leb, ◌==◌, nat_eq, if◌then◌else◌}
use setec.Prelude.Int.{ℤ, pos, negsuc}

abbrev pub Time : Type 0
Time = ℕ

abbrev pub Duration : Type 0
Duration = ℤ

-- The largest time.Duration, 1<<63 - 1.
abbrev pub max_duration : ℕ
max_duration = 2 ^ 63 - 1

abbrev pub second : ℕ
second = 1_000_000_000

abbrev pub minute : ℕ
minute = 60 * second

abbrev pub is_zero : Time → Bool
is_zero t = t == 0

-- t.Sub(u), which saturates at the ends of int64.
abbrev pub sub : Time → Time → Duration
sub t u = if leb u t then pos (min (t - u) max_duration) else negsuc (min (u - t - 1) max_duration)

-- t.Add(d), for an instant that stays after the zero time.
abbrev pub add : Time → Duration → Time
add t (pos n) = t + n
add t (negsuc n) = t - (n + 1)

abbrev pub before : Time → Time → Bool
before t u = ltb t u

abbrev pub after : Time → Time → Bool
after t u = ltb u t

-- The sum of two positive durations: an int64 that wraps around.
abbrev pub positive_sum : ℕ → ℕ → Duration
positive_sum m n = let s = m + n in if leb s max_duration then pos s else negsuc (2 ^ 64 - s - 1)

-- A positive duration less another one: an int64 that wraps around.
abbrev pub time_left : ℕ → Duration → Duration
time_left n (pos m) = if leb m n then pos (n - m) else negsuc (m - n - 1)
time_left n (negsuc m) =
    let d = n + m + 1 in if leb d max_duration then pos d else negsuc (2 ^ 64 - d - 1)
