-- ===== src/Reserve/Sizes.antt =====
-- The sizes of batches in the reserve (pkg/postage/batchstore/reserve.go).
use sana.Common.{
  ℕ, zero, suc, ◌+◌, ◌-◌, ◌*◌, ◌^◌, ◌≤◌, ◌<◌, ◌≡◌, refl, ap, sym, ◌∙◌, false, ◌==◌, arith,
  Bool-cases, inl, inr,
}
use sana.Common.Int.{pos, negsuc, ◌*ℤ◌}
use sana.Common.Word.{u8_mod, wrap64, pow2_suc, pow2_mono}
use sana.Reserve.State.{ReserveState, inner, outer, double_times, exp2, size, sub8}

double : (m : ℕ) → m < 2 ^ 62 → wrap64 (pos m *ℤ pos 2) ≡ pos (2 * m)
unfolding wrap64 ◌*ℤ◌
double m h = ground arith

zero_again : wrap64 (pos 0 *ℤ pos 2) ≡ pos 0
unfolding wrap64 ◌*ℤ◌
zero_again = refl

top : wrap64 (pos (2 ^ 62) *ℤ pos 2) ≡ negsuc (2 ^ 63 - 1)
unfolding wrap64 ◌*ℤ◌
top = refl

over : wrap64 (negsuc (2 ^ 63 - 1) *ℤ pos 2) ≡ pos 0
unfolding wrap64 ◌*ℤ◌
over = refl

-- Doubling below 2^62 is exact.
double_pow2 : (k : ℕ) → k < 62 → wrap64 (pos (2 ^ k) *ℤ pos 2) ≡ pos (2 ^ suc k)
double_pow2 k h =
    let b = pow2_mono k 61 (omega arith) in double (2 ^ k) (omega arith) ∙ ap pos (sym (pow2_suc k))

double_times_lem : (n k e : ℕ) → n + k ≡ e → e ≤ 62 → double_times n (pos (2 ^ k)) ≡ pos (2 ^ e)
unfolding double_times
double_times_lem zero k e d h = ap (λ m. pos (2 ^ m)) (omega arith)
double_times_lem (suc n) k e d h =
    rw (double_times, double_pow2 k (omega arith)) (double_times_lem n (suc k) e (omega arith) h)

exp2-suc : (e : ℕ) → exp2 (suc e) ≡ double_times e (pos 2)
unfolding exp2
exp2-suc e =
    let n : (suc e == 0) ≡ false = ground arith in
    let p : suc e - 1 ≡ e = omega arith in rw (n, p) refl

-- exp2 is the power of 2 as long as that is below 2^63.
exp2_lem : (e : ℕ) → e ≤ 62 → exp2 e ≡ pos (2 ^ e)
unfolding exp2
exp2_lem zero h = refl
exp2_lem (suc e) h = exp2-suc e ∙ double_times_lem e 1 (suc e) (omega arith) h

double_times_zero : (n : ℕ) → double_times n (pos 0) ≡ pos 0
unfolding double_times
double_times_zero zero = refl
double_times_zero (suc n) = rw (double_times, zero_again) (double_times_zero n)

-- The bit leaves the int64 after 64 rounds.
double_times-overflow : (n k : ℕ) → k ≤ 62 → 64 ≤ n + k → double_times n (pos (2 ^ k)) ≡ pos 0
unfolding double_times
double_times-overflow zero k h d = absurd (omega arith)
double_times-overflow (suc zero) k h d = absurd (omega arith)
double_times-overflow (suc (suc n)) k h d = elim (Bool-cases (k == 62)) [
  | inl e ↦ let at : k ≡ 62 = ground arith in rw (at, double_times, top, over) (double_times_zero n)
  | inr f ↦
      let below : k < 62 = ground arith in
      rw (double_times, double_pow2 k below)
        (double_times-overflow (suc n) (suc k) (omega arith) (omega arith))
]

exp2-overflow : (e : ℕ) → 64 ≤ e → exp2 e ≡ pos 0
unfolding exp2
exp2-overflow zero h = absurd (omega arith)
exp2-overflow (suc e) h = exp2-suc e ∙ double_times-overflow e 1 (omega arith) (omega arith)

-- The chunks of a batch of depth d that a node of radius r is to keep: 2^(d-r-1), and twice as many
-- in the outer tier, for a depth from 1 to 62 above the radius. A batch whose depth is not above
-- the radius counts for nothing: the difference wraps, and the power of 2 overflows to 0.
pub size_lem :
    (rs : ReserveState) (d : ℕ)
    → rs.radius < 192
    → d < u8_mod
    → (rs.radius < d
        → d ≤ rs.radius + 62
        → (size rs d inner ≡ pos (2 ^ (d - rs.radius - 1)))
          × (size rs d outer ≡ pos (2 ^ (d - rs.radius))))
      × (d ≤ rs.radius → (size rs d inner ≡ pos 0) × (size rs d outer ≡ pos 0))
unfolding size
size_lem rs d r b = (
  (λ h k.
      let e : sub8 (sub8 d rs.radius) 1 ≡ d - rs.radius - 1 = omega arith in
      let p : d - rs.radius ≡ suc (d - rs.radius - 1) = omega arith in
      rw (e, exp2_lem (d - rs.radius - 1) (omega arith))
        (refl, double_pow2 (d - rs.radius - 1) (omega arith) ∙ ap (λ m. pos (2 ^ m)) (sym p))),
  λ h. rw (exp2-overflow (sub8 (sub8 d rs.radius) 1) (omega arith)) (refl, zero_again),
)
