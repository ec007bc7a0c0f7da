-- ===== src/Base/Clock.antt =====
-- `time.Time` and `time.Duration`. An instant is the number of nanoseconds since Go's zero time, so
-- `IsZero` is the test for 0; a duration is a signed 64-bit number of nanoseconds.
use Prim.Native.Nat.{ℕ, ◌*◌, ◌/◌}
use mathlib.Core.Bool.{Bool}
use vox_streaming.Base.Tests.{ltb, ◌==◌}
use vox_streaming.Base.Int.{ℤ, sub_ℕ, saturate64}

abbrev pub Time : Type 0
Time = ℕ

abbrev pub Duration : Type 0
Duration = ℤ

abbrev pub nanoseconds_per_second : ℕ
nanoseconds_per_second = 1000000000

abbrev pub seconds : ℕ → ℕ
seconds n = n * 1000000000

abbrev pub minutes : ℕ → ℕ
minutes n = n * 60000000000

-- `t.Sub(u)`, held at the ends of the range of a duration.
unfoldable pub sub : Time → Time → Duration
unfolding saturate64
sub t u = saturate64 (sub_ℕ t u)

-- `t.After(u)` and `t.Before(u)`.
abbrev pub after : Time → Time → Bool
after t u = ltb u t

abbrev pub before : Time → Time → Bool
before t u = ltb t u

abbrev pub is_zero : Time → Bool
is_zero t = t == 0

-- Whole seconds since the zero time. `Unix` counts from 1970: a constant less, so that comparing
-- two such numbers is comparing the source's.
abbrev pub unix : Time → ℕ
unix t = t / 1000000000
