-- ===== src/Batchstore/Below.antt =====
-- The batches below a limit, and what they take up (pkg/postage/batchstore/reserve.go).

use sana.Common.{
  ℕ, ◌^◌, ◌≤◌, ◌<◌, ◌≡◌, refl, ◌∙◌, true, false, Option, some, List, [], ◌∷◌, leb, ◌==◌,
  if◌then◌else◌, arith,
}
use sana.Common.Int.{ℤ, pos, pos_part, neg_part, ◌+ℤ◌, ◌*ℤ◌, +ℤ_parts, eq_of_parts}
use sana.Common.Word.{wrap64}
use sana.Reserve.State.{ReserveState, tier_of, radius_of, batch_radius, size, exp2, sub8}
use sana.Reserve.Sizes.{size_lem}
use sana.Batchstore.State.{Batch}
use sana.Batchstore.Chain.{multiply}
use sana.Batchstore.Outer.{All, AllFrom, wrap64_lem}

-- The ids of the keys before the first one of at least this value, and the keys from it on.
abbrev pub ids_below : ℕ → List (ℕ × ℕ) → List ℕ
ids_below limit [] = []
ids_below limit ((v, id) ∷ keys) = if leb limit v then [] else id ∷ ids_below limit keys

abbrev pub keys_from : ℕ → List (ℕ × ℕ) → List (ℕ × ℕ)
keys_from limit [] = []
keys_from limit ((v, id) ∷ keys) = if leb limit v then (v, id) ∷ keys else keys_from limit keys

abbrev pub AllKnown : (ℕ → Option Batch) → List (ℕ × ℕ) → Type 0
AllKnown batches = All (λ k. (b : Batch) × (batches k.1 ≡ some b) × (b.value ≡ k.0) × (b.id ≡ k.1))

abbrev pub AllOther : ℕ → List (ℕ × ℕ) → Type 0
AllOther i = All (λ k. k.1 == i ≡ false)

abbrev pub Distinct : List (ℕ × ℕ) → Type 0
Distinct [] = Unit {0}
Distinct ((v, id) ∷ keys) = AllOther id keys × Distinct keys

pub ids_below-none : (k : ℕ) (keys : List (ℕ × ℕ)) → AllFrom k keys → ids_below k keys ≡ []
ids_below-none k [] f = refl
ids_below-none k ((v, id) ∷ keys) f = let a : leb k v ≡ true = ground arith in rw a refl

-- A batch that is not deeper than the radius gives back nothing: its size wraps to 0.
pub no_size :
    (rs : ReserveState) (d : ℕ)
    → d ≤ rs.radius
    → rs.radius < 192
    → exp2 (sub8 (sub8 d rs.radius) 1) ≡ pos 0
unfolding size
no_size rs d h r = ((size_lem rs d r (omega arith)).1 h).0

pub batch_radius-le :
    (rs : ReserveState) (v i : ℕ)
    → rs.inner_limit ≡ pos i
    → 0 < i
    → i ≤ v
    → 0 < rs.radius
    → rs.radius < 192
    → batch_radius rs (pos v) ≤ rs.radius
unfolding batch_radius tier_of radius_of
batch_radius-le rs v i e p h r r8 = ground arith

pub multiply-zero :
    (rs : ReserveState) (v i : ℕ) → rs.inner_limit ≡ pos i → v < i → multiply rs v 0 ≡ 0
unfolding multiply
multiply-zero rs v i e h = ground arith

pub times_zero :
    (z : ℤ) (n : ℕ)
    → pos_part z < 2 ^ 63
    → neg_part z ≤ 2 ^ 63
    → wrap64 (z +ℤ wrap64 (pos n *ℤ pos 0)) ≡ z
unfolding ◌*ℤ◌
times_zero z n h k =
    let e : wrap64 (pos n *ℤ pos 0) ≡ pos 0 =
      wrap64_lem (pos n *ℤ pos 0) (ground arith) (ground arith) ∙ ground arith in
    let s : z +ℤ pos 0 ≡ z = eq_of_parts (z +ℤ pos 0) z (omega (arith, +ℤ_parts z (pos 0))) in
    rw (e, s) (wrap64_lem z h k)

pub zero_times :
    (z x : ℤ) → pos_part z < 2 ^ 63 → neg_part z ≤ 2 ^ 63 → wrap64 (z +ℤ wrap64 (pos 0 *ℤ x)) ≡ z
unfolding ◌*ℤ◌
zero_times z x h k =
    let e : wrap64 (pos 0 *ℤ x) ≡ pos 0 =
      wrap64_lem (pos 0 *ℤ x) (ground arith) (ground arith) ∙ ground arith in
    let s : z +ℤ pos 0 ≡ z = eq_of_parts (z +ℤ pos 0) z (omega (arith, +ℤ_parts z (pos 0))) in
    rw (e, s) (wrap64_lem z h k)

-- The hypotheses on a store while evictExpired collects.
