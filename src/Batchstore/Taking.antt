-- ===== src/Batchstore/Taking.antt =====
-- What a pass of evictOuter takes from the keys that it sees (pkg/postage/batchstore/reserve.go).
use sana.Common.{
  ℕ, suc, ◌+◌, ◌*◌, ◌^◌, ◌≤◌, ◌<◌, ◌≡◌, refl, subst, ◌∙◌, true, false, some, List, ◌∷◌, ltb, ◌==◌,
  if◌then◌else◌, inl, inr, Bool-cases, arith,
}
use sana.Common.Int.{one_part, ℤ, pos, pos_part, neg_part, ◌+ℤ◌, +ℤ_parts}
use sana.Common.Word.{wrap64}
use sana.Reserve.State.{batch_radius}
use sana.Batchstore.State.{Batch, Store, batch_at, get}
use sana.Batchstore.Outer.{
  half, used, AllFrom, AllUpTo, find_in, AllFrom-le, used-above, wrap64_lem,
}

pub batch_at-found :
    (last : Batch) (id : ℕ) (s : Store) (b : Batch)
    → find_in last s.batches id ≡ some b
    → (c : Batch) × (batch_at last id s ≡ some c) × (c.value ≡ b.value) × (c.depth ≡ b.depth)
unfolding get
batch_at-found last id s b e = elim (Bool-cases (last.id == id)) [
  | inl y ↦
      let f : some last ≡ some b =
        subst (λ t. (if t then some last else s.batches id) ≡ some b) y e in
      (last, rw y refl, cc, cc)
  | inr n ↦
      let f : s.batches id ≡ some b =
        subst (λ t. (if t then some last else s.batches id) ≡ some b) n e in
      (record b { radius = batch_radius s.reserve (pos b.value) }, rw (n, f) refl, refl, refl)
]

-- The capacity from which the halves of these batches can be taken on int64.
abbrev pub Fits : Store → ℕ → Type 0
Fits s n =
    (neg_part s.reserve.available ≤ 2 ^ 62)
    × (pos_part s.reserve.available + n ≤ 2 ^ 62 + neg_part s.reserve.available)

-- The store after the pass over the keys, from the outer limit `o`: its capacity and what the batches
-- take up, with the next outer limit, add up to what they did, and with a capacity below 0 the halves
-- of all batches were taken.
pub record Passed (depth_of : ℕ → ℕ) (s t : Store) (o : ℕ) (keys : List (ℕ × ℕ)) : Type 0 where
  pub limit : ℕ
  pub limit_is : t.reserve.outer_limit ≡ pos limit
  pub raised : o ≤ limit
  pub balance :
      pos_part t.reserve.available
        + used depth_of s.reserve.radius (suc limit) keys
        + neg_part s.reserve.available
      ≡ pos_part s.reserve.available
        + used depth_of s.reserve.radius o keys
        + neg_part t.reserve.available
  pub all_taken : pos_part t.reserve.available < neg_part t.reserve.available → AllUpTo limit keys
  pub low : neg_part t.reserve.available ≤ 2 ^ 62
  pub batches_kept : t.batches ≡ s.batches
  pub values_kept : t.values ≡ s.values
  pub radius_kept : t.reserve.radius ≡ s.reserve.radius
  pub inner_kept : t.reserve.inner_limit ≡ s.reserve.inner_limit

module _ (depth_of : ℕ → ℕ) (s t : Store) (o v id : ℕ) (keys : List (ℕ × ℕ)) where
  -- A key below the outer limit is passed over.
  pub Passed-skip : v < o → Passed depth_of s t o keys → Passed depth_of s t o ((v, id) ∷ keys)
  Passed-skip h p =
      let r = s.reserve.radius in
      let up = p.raised in
      let a : ltb v o ≡ true = ground arith in
      let b : ltb v (suc p.limit) ≡ true = ground arith in
      let e = p.balance in
      record {
        limit = p.limit;
        limit_is = p.limit_is;
        raised = p.raised;
        balance = rw (a, b) (omega arith);
        all_taken = λ l. (omega arith, p.all_taken l);
        low = p.low;
        batches_kept = p.batches_kept;
        values_kept = p.values_kept;
        radius_kept = p.radius_kept;
        inner_kept = p.inner_kept;
      }

-- The pass ends at a key above the outer limit when there is capacity.
pub Passed-stop :
    (depth_of : ℕ → ℕ) (s : Store) (o : ℕ) (keys : List (ℕ × ℕ))
    → s.reserve.outer_limit ≡ pos o
    → neg_part s.reserve.available ≤ pos_part s.reserve.available
    → neg_part s.reserve.available ≤ 2 ^ 62
    → AllFrom (suc o) keys
    → Passed depth_of s s o keys
Passed-stop depth_of s o keys e h l f =
    let same =
      used-above depth_of s.reserve.radius (suc o) o keys f
        (AllFrom-le o (suc o) keys (omega arith) f) in
    record {
      limit = o;
      limit_is = e;
      raised = omega arith;
      balance = rw same refl;
      all_taken = λ g. absurd (omega arith);
      low = l;
      batches_kept = refl;
      values_kept = refl;
      radius_kept = refl;
      inner_kept = refl;
    }

-- The half of a batch that is taken, and the rest of the pass.
pub Passed-take :
    (depth_of : ℕ → ℕ) (s s' t : Store) (o v id : ℕ) (keys : List (ℕ × ℕ))
    → pos_part s'.reserve.available + neg_part s.reserve.available
      ≡ pos_part s.reserve.available
        + half s.reserve.radius (depth_of id)
        + neg_part s'.reserve.available
    → o ≤ v
    → AllFrom v keys
    → (s'.batches ≡ s.batches)
      × (s'.values ≡ s.values)
      × (s'.reserve.radius ≡ s.reserve.radius)
      × (s'.reserve.inner_limit ≡ s.reserve.inner_limit)
    → Passed depth_of s' t v keys
    → Passed depth_of s t o ((v, id) ∷ keys)
Passed-take depth_of s s' t o v id keys more h f same p =
    let r = s.reserve.radius in
    let up = p.raised in
    let a : ltb v o ≡ false = ground arith in
    let b : ltb v (suc p.limit) ≡ true = ground arith in
    let above : used depth_of r v keys ≡ used depth_of r o keys =
      used-above depth_of r v o keys f (AllFrom-le o v keys h f) in
    let e : pos_part t.reserve.available
          + used depth_of r (suc p.limit) keys
          + neg_part s'.reserve.available
        ≡ pos_part s'.reserve.available + used depth_of r v keys + neg_part t.reserve.available =
      subst
        (λ q.
          pos_part t.reserve.available
            + used depth_of q (suc p.limit) keys
            + neg_part s'.reserve.available
          ≡ pos_part s'.reserve.available + used depth_of q v keys + neg_part t.reserve.available)
        same.2 p.balance in
    record {
      limit = p.limit;
      limit_is = p.limit_is;
      raised = omega arith;
      balance = rw (a, b) (omega arith);
      all_taken = λ l. (up, p.all_taken l);
      low = p.low;
      batches_kept = p.batches_kept ∙ same.0;
      values_kept = p.values_kept ∙ same.1;
      radius_kept = p.radius_kept ∙ same.2;
      inner_kept = p.inner_kept ∙ same.3;
    }

-- int64 addition of a half to the capacity.
pub add_half :
    (a : ℤ) (h n : ℕ)
    → neg_part a ≤ 2 ^ 62
    → pos_part a + (2 * h + n) ≤ 2 ^ 62 + neg_part a
    → let z = wrap64 (a +ℤ pos h) in
      (neg_part z ≤ 2 ^ 62)
      × (pos_part z + n ≤ 2 ^ 62 + neg_part z)
      × (pos_part z + neg_part a ≡ pos_part a + h + neg_part z)
add_half a h n l f =
    let z = a +ℤ pos h in
    let p = +ℤ_parts a (pos h) in
    let small : (pos_part z < 2 ^ 63) × (neg_part z ≤ 2 ^ 62) = elim (one_part z) [
      | inl e ↦ elim (one_part a) [ inl u ↦ omega arith | inr u ↦ omega arith ]
      | inr e ↦ omega arith
    ] in
    rw (wrap64_lem z small.0 (let q = small.1 in omega arith)) (small.1, omega arith, omega arith)
