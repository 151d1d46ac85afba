-- ===== src/Batchstore/Sound.antt =====
-- Stores that are sound for the batch that Put changes, and the radius at which the halves of all batches fit
-- (pkg/postage/batchstore/reserve.go).
use sana.Common.{
  ℕ, suc, ◌+◌, ◌-◌, ◌*◌, ◌^◌, ◌≤◌, ◌<◌, ◌≡◌, refl, sym, subst, ◌∙◌, true, false, List, [], ◌∷◌, ltb,
  arith,
}
use sana.Common.Int.{pos, pos_part, neg_part}
use sana.Common.Word.{pow2_suc}
use sana.Batchstore.State.{Batch, Store}
use sana.Batchstore.Outer.{
  half, used, Deep, AllFrom, AllUpTo, IsSorted, AllFound, find_in, depth_in,
}
use sana.Batchstore.Passing.{Ready}

-- What the inner halves of the batches take up.
abbrev pub halves : (ℕ → ℕ) → ℕ → List (ℕ × ℕ) → ℕ
halves depth_of radius [] = 0
halves depth_of radius ((v, id) ∷ keys) = half radius (depth_of id) + halves depth_of radius keys

pub used-halves :
    (depth_of : ℕ → ℕ) (r limit : ℕ) (keys : List (ℕ × ℕ))
    → AllUpTo limit keys
    → used depth_of r (suc limit) keys ≡ halves depth_of r keys
used-halves depth_of r limit [] h = refl
used-halves depth_of r limit ((v, id) ∷ keys) h =
    let a : ltb v (suc limit) ≡ true = ground arith in
    rw (a, used-halves depth_of r limit keys h.1) refl

half-suc : (r d : ℕ) → suc r < d → 2 * half (suc r) d ≡ half r d
half-suc r d h =
    let e : d - r - 1 ≡ suc (d - suc r - 1) = omega arith in rw (e, pow2_suc (d - suc r - 1)) refl

-- At the next radius, both halves are what the inner half was.
pub used-deeper :
    (depth_of : ℕ → ℕ) (r top i : ℕ) (keys : List (ℕ × ℕ))
    → AllFrom i keys
    → Deep depth_of (suc r) top keys
    → used depth_of (suc r) i keys ≡ halves depth_of r keys
used-deeper depth_of r top i [] f d = refl
used-deeper depth_of r top i ((v, id) ∷ keys) f d =
    let a : ltb v i ≡ false = ground arith in
    rw (a, half-suc r (depth_of id) d.0.0, used-deeper depth_of r top i keys f.1 d.1) refl

pub Deep-le :
    (depth_of : ℕ → ℕ) (r q top : ℕ) (keys : List (ℕ × ℕ))
    → r ≤ q
    → Deep depth_of q top keys
    → Deep depth_of r top keys
Deep-le depth_of r q top [] h d = tt
Deep-le depth_of r q top ((v, id) ∷ keys) h d =
    ((let a = d.0.0 in omega arith, d.0.1), Deep-le depth_of r q top keys h d.1)

-- A store in which Put of `last` has changed the index: the keys are in order and have batches, none
-- is below the inner limit, and what the batches take up and the capacity that is left add up to the
-- capacity of the reserve.
pub record IsSound (last : Batch) (top : ℕ) (s : Store) (o i : ℕ) : Type 0 where
  pub outer_is : s.reserve.outer_limit ≡ pos o
  pub inner_is : s.reserve.inner_limit ≡ pos i
  pub ordered : i ≤ o
  pub above : AllFrom i s.values
  pub sorted : IsSorted s.values
  pub all_found : AllFound (find_in last s.batches) s.values
  pub deep : Deep (depth_in last s.batches) s.reserve.radius top s.values
  pub bounded : top ≤ s.reserve.radius + 62
  pub low : neg_part s.reserve.available ≤ 2 ^ 62
  pub full :
      pos_part s.reserve.available + used (depth_in last s.batches) s.reserve.radius o s.values
      ≡ 2 ^ 22 + neg_part s.reserve.available

-- The end of evictOuter: a sound store, with capacity left, at a radius that is not above `most`.
pub record IsSettled (last : Batch) (top most i : ℕ) (s t : Store) : Type 0 where
  pub next_outer : ℕ
  pub sound : IsSound last top t next_outer i
  pub left_over : neg_part t.reserve.available ≤ pos_part t.reserve.available
  pub not_lower : s.reserve.radius ≤ t.reserve.radius
  pub not_above : t.reserve.radius ≤ most
  pub batches_kept : t.batches ≡ s.batches
  pub values_kept : t.values ≡ s.values

pub sound-Ready :
    (last : Batch) (top i : ℕ) (s : Store) (o : ℕ)
    → IsSound last top s o i
    → Ready last top s o s.values
sound-Ready last top i s o k = record {
  outer_is = k.outer_is;
  sorted = k.sorted;
  all_found = k.all_found;
  deep = k.deep;
  bounded = k.bounded;
  fits = (k.low, let e = k.full in omega arith);
}

-- The store after a pass at the same or at the next radius.
pub passed-IsSound :
    (last : Batch) (top i : ℕ) (s u : Store) (o l : ℕ)
    → IsSound last top s o i
    → (u.batches ≡ s.batches)
      × (u.values ≡ s.values)
      × (u.reserve.inner_limit ≡ s.reserve.inner_limit)
      × (u.reserve.outer_limit ≡ pos l)
    → i ≤ l
    → s.reserve.radius ≤ u.reserve.radius
    → Deep (depth_in last s.batches) u.reserve.radius top s.values
    → neg_part u.reserve.available ≤ 2 ^ 62
    → pos_part u.reserve.available + used (depth_in last s.batches) u.reserve.radius l s.values
      ≡ 2 ^ 22 + neg_part u.reserve.available
    → IsSound last top u l i
passed-IsSound last top i s u o l k same h g d low full = record {
  outer_is = same.3;
  inner_is = same.2 ∙ k.inner_is;
  ordered = h;
  above = subst (AllFrom i) (sym same.1) k.above;
  sorted = subst IsSorted (sym same.1) k.sorted;
  all_found = rw (same.0, same.1) k.all_found;
  deep = rw (same.0, same.1) d;
  bounded = let b = k.bounded in omega arith;
  low = low;
  full = rw (same.0, same.1) full;
}

-- The radius is large enough for the inner halves of all batches.
abbrev pub FitsAt : Batch → ℕ → ℕ → Store → Type 0
FitsAt last top most s =
    Deep (depth_in last s.batches) most top s.values
    × (halves (depth_in last s.batches) most s.values ≤ 2 ^ 22)
