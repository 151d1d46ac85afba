-- ===== src/Batchstore/AtRest.antt =====
-- The store between two calls, and the other batches while Put changes one (pkg/postage/batchstore/store.go).

use sana.Common.{
  ℕ, ◌+◌, ◌^◌, ◌≤◌, ◌<◌, ◌≡◌, refl, ap, ◌∙◌, true, false, Option, List, ltb, ◌==◌, ◌⊎◌, inl, inr,
  arith,
}
use sana.Common.Int.{pos, pos_part, neg_part}
use sana.Batchstore.State.{Batch, Store, delete_key}
use sana.Batchstore.Outer.{AllFrom, IsSorted, Deep, find_in, depth_or, room, used}
use sana.Batchstore.Below.{AllKnown, AllOther, Distinct}
use sana.Batchstore.Index.{has_key, All-has_key, used-delete, delete-other}
use sana.Batchstore.Putting.{place}

abbrev pub depth_at : (ℕ → Option Batch) → ℕ → ℕ
depth_at batches id = depth_or (batches id)

-- A store between two calls, with a reserve that is not empty: the index is in order and has one key
-- for each of its batches, with the value that the batch has, none is below the inner limit, there is
-- capacity left, and it and what the batches take up add up to the capacity of the reserve.
pub record IsAtRest (s : Store) (top o i : ℕ) : Type 0 where
  pub outer_is : s.reserve.outer_limit ≡ pos o
  pub inner_is : s.reserve.inner_limit ≡ pos i
  pub positive : 0 < i
  pub ordered : i ≤ o
  pub above : AllFrom i s.values
  pub sorted : IsSorted s.values
  pub known : AllKnown s.batches s.values
  pub distinct : Distinct s.values
  pub deep : Deep (depth_at s.batches) s.reserve.radius top s.values
  pub bounded : top ≤ s.reserve.radius + 62
  pub left_over : neg_part s.reserve.available ≤ pos_part s.reserve.available
  pub full :
      pos_part s.reserve.available + used (depth_at s.batches) s.reserve.radius o s.values
      ≡ 2 ^ 22 + neg_part s.reserve.available

-- The batch is in the store with this value and depth, or it is new, with the value 0.
abbrev pub IsOwn : Store → Batch → Type 0
IsOwn s b =
    ((has_key (b.value, b.id) s.values ≡ true) × (depth_at s.batches b.id ≡ b.depth))
    ⊎ ((b.value ≡ 0) × AllOther b.id s.values)

abbrev pub others_of : Batch → Store → List (ℕ × ℕ)
others_of b s = delete_key (b.value, b.id) s.values

-- What is known of the other batches.
pub record Others (s : Store) (b : Batch) (top o i : ℕ) : Type 0 where
  pub other : AllOther b.id (others_of b s)
  pub balance :
      used (depth_at s.batches) s.reserve.radius o s.values
      ≡ place i s.reserve.radius o b.value b.depth
        + used (depth_at s.batches) s.reserve.radius o (others_of b s)

pub others_lem :
    (s : Store) (b : Batch) (top o i : ℕ) → IsAtRest s top o i → IsOwn s b → Others s b top o i
others_lem s b top o i k (inl (there, d)) =
    let (e, f) =
      used-delete (depth_at s.batches) s.reserve.radius o b.value b.id s.values there k.distinct in
    let high = All-has_key (λ j. i ≤ j.0) (b.value, b.id) s.values there k.above in
    let inside : ltb b.value i ≡ false = ground arith in
    record {
      other = f;
      balance = rw inside (
          e
          ∙ ap
              (λ d.
                room s.reserve.radius o b.value d
                + used (depth_at s.batches) s.reserve.radius o (others_of b s))
              d);
    }
others_lem s b top o i k (inr (z, f)) =
    let e = delete-other b.value b.id s.values f in
    let p = k.positive in
    let below : ltb b.value i ≡ true = ground arith in
    record { other = rw e f; balance = rw (e, below) (omega arith) }

-- Another id is not that of the batch.
pub find-other :
    (b : Batch) (m : ℕ → Option Batch) (j : ℕ) → j == b.id ≡ false → find_in b m j ≡ m j
find-other b m j e = let f : b.id == j ≡ false = ground arith in rw f refl
