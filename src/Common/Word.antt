-- ===== src/Common/Word.antt =====
-- Machine words: the moduli, and the int64 that the low 64 bits of an integer stand for.
use sana.Common.Tests.{ltb, if◌then◌else◌}
use sana.Common.Int.{ℤ, pos, negsuc}
use Prim.Native.Nat.{ℕ, zero, suc, ◌+◌, ◌-◌, ◌*◌, ◌%◌, ◌^◌, ◌≤◌, ◌<◌}
use mathlib.Core.Path.{◌≡◌}
use native.Mathlib.Numerals.{unary_clauses}
use native.Mathlib.Omega.{arith}

abbrev pub u8_mod : ℕ
u8_mod = 256

abbrev pub u64_mod : ℕ
u64_mod = 2 ^ 64

-- The low 64 bits, in two's complement.
abbrev pub bits64 : ℤ → ℕ
bits64 (pos n) = n % u64_mod
bits64 (negsuc n) = u64_mod - 1 - n % u64_mod

-- The int64 with these bits.
abbrev pub signed64 : ℕ → ℤ
signed64 w = if ltb w (2 ^ 63) then pos w else negsuc (u64_mod - 1 - w)

-- `int64` arithmetic wraps: the int64 that is equal to `z` modulo 2^64.
unfoldable pub wrap64 : ℤ → ℤ
wrap64 z = signed64 (bits64 z)

pub pow2_suc : (n : ℕ) → 2 ^ suc n ≡ 2 * 2 ^ n
pow2_suc n = simp unary_clauses (omega arith)

pub pow2_positive : (n : ℕ) → 0 < 2 ^ n
pow2_positive zero = omega arith
pow2_positive (suc n) = let p = pow2_positive n in rw (pow2_suc n) (omega arith)

pub pow2_mono : (k n : ℕ) → k ≤ n → 2 ^ k ≤ 2 ^ n
pow2_mono zero n h = let p = pow2_positive n in omega arith
pow2_mono (suc k) zero h = absurd (omega arith)
pow2_mono (suc k) (suc n) h =
    let p = pow2_mono k n (omega arith) in rw (pow2_suc k, pow2_suc n) (omega arith)

pub pow2_add : (a b : ℕ) → 2 ^ (a + b) ≡ 2 ^ a * 2 ^ b
pow2_add a zero = let e : a + 0 ≡ a = omega arith in rw e (omega arith)
pow2_add a (suc b) =
    let e : a + suc b ≡ suc (a + b) = omega arith in
    rw (e, pow2_suc (a + b), pow2_suc b, pow2_add a b) (grind arith)
