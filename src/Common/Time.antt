-- ===== src/Common/Time.antt =====
-- Go's time.Time, as far as the components use it: the zero time and differences.
use sana.Common.Tests.{ltb, leb, ◌==◌, if◌then◌else◌}
use sana.Common.Int.{ℤ, pos, negsuc, sub_ℕ}
use Prim.Native.Nat.{ℕ, ◌-◌, ◌^◌}
use mathlib.Core.Bool.{Bool}

-- A time is in nanoseconds from Go's zero time on, which is 0.
abbrev pub Time : Type 0
Time = ℕ

abbrev pub is_zero : Time → Bool
is_zero t = t == 0

-- time.Time.Sub: a difference that is no int64 becomes the nearest one.
unfoldable pub since : Time → Time → ℤ
since now t =
    if leb (2 ^ 63) (now - t)
    then pos (2 ^ 63 - 1)
    else if ltb (2 ^ 63) (t - now)
    then negsuc (2 ^ 63 - 1)
    else sub_ℕ now t
