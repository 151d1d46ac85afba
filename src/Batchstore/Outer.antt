-- ===== src/Batchstore/Outer.antt =====
-- What evictOuter takes back (pkg/postage/batchstore/reserve.go).
use sana.Common.{
  ℕ, ◌+◌, ◌-◌, ◌*◌, ◌^◌, ◌≤◌, ◌<◌, ◌≡◌, refl, false, Option, none, some, List, [], ◌∷◌, ltb, ◌==◌,
  if◌then◌else◌, arith,
}
use sana.Common.Int.{ℤ, pos, pos_part, neg_part}
use sana.Common.Word.{u8_mod, wrap64}
use sana.Reserve.State.{ReserveState, size, exp2, sub8}
use sana.Reserve.Sizes.{size_lem}
use sana.Batchstore.State.{Batch}

-- The chunks of the inner half of a batch of this depth.
abbrev pub half : ℕ → ℕ → ℕ
half radius depth = 2 ^ (depth - radius - 1)

-- What a batch takes up at or above the inner limit.
abbrev pub room : ℕ → ℕ → ℕ → ℕ → ℕ
room radius limit value depth = if ltb value limit then half radius depth else 2 * half radius depth

-- A property of all keys.
abbrev pub All : (ℕ × ℕ → Type 0) → List (ℕ × ℕ) → Type 0
All P [] = Unit {0}
All P (k ∷ keys) = P k × All P keys

module _ (depth_of : ℕ → ℕ) where
  -- What the batches of the keys take up, by their depths.
  abbrev pub used : ℕ → ℕ → List (ℕ × ℕ) → ℕ
  used radius limit [] = 0
  used radius limit ((v, id) ∷ keys) = room radius limit v (depth_of id) + used radius limit keys

  -- The depths fit the radius.
  abbrev pub Deep : ℕ → ℕ → List (ℕ × ℕ) → Type 0
  Deep radius top = All (λ k. (radius < depth_of k.1) × (depth_of k.1 ≤ top))

abbrev pub AllFrom : ℕ → List (ℕ × ℕ) → Type 0
AllFrom limit = All (λ k. limit ≤ k.0)

abbrev pub AllUpTo : ℕ → List (ℕ × ℕ) → Type 0
AllUpTo limit = All (λ k. k.0 ≤ limit)

abbrev pub IsSorted : List (ℕ × ℕ) → Type 0
IsSorted [] = Unit {0}
IsSorted ((v, id) ∷ keys) = AllFrom v keys × IsSorted keys

-- Each key has a batch of its value.
abbrev pub AllFound : (ℕ → Option Batch) → List (ℕ × ℕ) → Type 0
AllFound find = All (λ k. (b : Batch) × (find k.1 ≡ some b) × (b.value ≡ k.0))

-- The batch of a key, for Put of `last`.
abbrev pub find_in : Batch → (ℕ → Option Batch) → ℕ → Option Batch
find_in last batches id = if last.id == id then some last else batches id

abbrev pub depth_or : Option Batch → ℕ
depth_or none = 0
depth_or (some b) = b.depth

abbrev pub depth_in : Batch → (ℕ → Option Batch) → ℕ → ℕ
depth_in last batches id = depth_or (find_in last batches id)

pub AllFrom-le : (k l : ℕ) (keys : List (ℕ × ℕ)) → k ≤ l → AllFrom l keys → AllFrom k keys
AllFrom-le k l [] h f = tt
AllFrom-le k l ((v, id) ∷ keys) h f = (omega arith, AllFrom-le k l keys h f.1)

-- Above both limits each batch takes up both halves.
pub used-above :
    (depth_of : ℕ → ℕ) (r k l : ℕ) (keys : List (ℕ × ℕ))
    → AllFrom k keys
    → AllFrom l keys
    → used depth_of r k keys ≡ used depth_of r l keys
used-above depth_of r k l [] f g = refl
used-above depth_of r k l ((v, id) ∷ keys) f g =
    let a : ltb v k ≡ false = ground arith in
    let b : ltb v l ≡ false = ground arith in rw (a, b, used-above depth_of r k l keys f.1 g.1) refl

pub wrap64_lem : (z : ℤ) → pos_part z < 2 ^ 63 → neg_part z ≤ 2 ^ 63 → wrap64 z ≡ z
unfolding wrap64
wrap64_lem z h k = ground arith

pub half_lem :
    (rs : ReserveState) (d : ℕ)
    → rs.radius < d
    → d ≤ rs.radius + 62
    → d < u8_mod
    → rs.radius < 192
    → exp2 (sub8 (sub8 d rs.radius) 1) ≡ pos (half rs.radius d)
unfolding size
half_lem rs d h k l m = ((size_lem rs d m l).0 h k).0
