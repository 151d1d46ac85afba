-- ===== src/Batchstore/Spending.antt =====
-- The loops of evictExpired and delete (pkg/postage/batchstore/reserve.go,
-- pkg/postage/batchstore/store.go).
use mathlib.Core.List.{append_assoc, append-nil}
use sana.Common.{
  ℕ, suc, ◌^◌, ◌≤◌, ◌<◌, ◌≡◌, refl, Bool, true, false, List, [], ◌∷◌, ◌++◌, ltb, leb, ◌⊎◌, inl, inr,
  Bool-cases, arith,
}
use sana.Common.Int.{ℤ, pos, pos_part, neg_part, ◌+ℤ◌, ◌*ℤ◌, leb_ℤ}
use sana.Common.Word.{wrap64}
use sana.Reserve.State.{ReserveState, batch_radius, exp2, sub8}
use sana.Common.Outcome.{done}
use sana.Batchstore.State.{Store, get}
use sana.Batchstore.Chain.{expire_keys, multiply}
use sana.Batchstore.Outer.{AllFrom, IsSorted, AllFrom-le}
use sana.Batchstore.Below.{
  ids_below, AllKnown, ids_below-none, no_size, batch_radius-le, multiply-zero, times_zero,
  zero_times,
}

pub record Collecting (s : Store) (total i : ℕ) : Type 0 where
  pub total_is : s.chain.total_amount ≡ total
  pub inner_is : s.reserve.inner_limit ≡ pos i
  pub inner_positive : 0 < i
  pub radius_positive : 0 < s.reserve.radius
  pub radius_small : s.reserve.radius < 192
  pub not_above : pos_part s.reserve.available < 2 ^ 63
  pub not_below : neg_part s.reserve.available ≤ 2 ^ 63

abbrev note_evicted : ℕ → Store → Store
note_evicted id s = record s { evicted = s.evicted ++ id ∷ [] }

abbrev gain : Store → ℕ → ℕ → ℤ
gain s v n =
    wrap64 (pos n *ℤ exp2 (sub8 (sub8 (batch_radius s.reserve (pos v)) s.reserve.radius) 1))

-- No capacity is gained: for a batch below the inner limit the multiplier is 0, and any other one has a
-- radius that is not above that of the reserve, so that its size wraps to 0.
no_gain :
    (s : Store) (total i v m : ℕ) (keys : List (ℕ × ℕ))
    → Collecting s total i
    → (m ≡ 0) ⊎ AllFrom i ((v, 0) ∷ keys)
    → wrap64 (s.reserve.available +ℤ gain s v (multiply s.reserve v m)) ≡ s.reserve.available
no_gain s total i v m keys c h = elim (Bool-cases (ltb v i)) [
  | inl y ↦
      let low : v < i = ground arith in
      let zero_ : m ≡ 0 = elim h [ inl e ↦ e | inr f ↦ absurd (let g = f.0 in omega arith) ] in
      rw (zero_, multiply-zero s.reserve v i c.inner_is low)
        (zero_times s.reserve.available
          (exp2 (sub8 (sub8 (batch_radius s.reserve (pos v)) s.reserve.radius) 1)) c.not_above
          c.not_below)
  | inr n ↦
      let high : i ≤ v = ground arith in
      let le =
        batch_radius-le s.reserve v i c.inner_is c.inner_positive high c.radius_positive
          c.radius_small in
      rw (no_size s.reserve (batch_radius s.reserve (pos v)) le c.radius_small)
        (times_zero s.reserve.available (multiply s.reserve v m) c.not_above c.not_below)
]

-- The multiplier of the next batch is not 0 only from the inner limit on.
multiplied :
    (rs : ReserveState) (i v m : ℕ) (keys : List (ℕ × ℕ))
    → rs.inner_limit ≡ pos i
    → AllFrom v keys
    → (m ≡ 0) ⊎ AllFrom i ((v, 0) ∷ keys)
    → (multiply rs v m ≡ 0) ⊎ AllFrom i keys
multiplied rs i v m keys e f (inr h) = inr h.1
multiplied rs i v m keys e f (inl z) = elim (Bool-cases (ltb v i)) [
  | inl y ↦ inl (rw z (multiply-zero rs v i e (ground arith)))
  | inr n ↦ inr (AllFrom-le i v keys (ground arith) f)
]

module _ (evict_fn : ℕ → Bool) (always : (id : ℕ) → evict_fn id ≡ true) (total until i : ℕ) where
  -- The loop visits the keys below the limit, evicts their batches, and collects the spent ones.
  pub expire_keys_lem :
      (keys : List (ℕ × ℕ)) (m : ℕ) (ids : List ℕ) (s : Store)
      → total < until
      → Collecting s total i
      → IsSorted keys
      → AllKnown s.batches keys
      → (m ≡ 0) ⊎ AllFrom i keys
      → expire_keys evict_fn (pos until) keys m ids s ≡ (
        ids ++ ids_below (suc total) keys,
        done (record s { evicted = s.evicted ++ ids_below until keys }),
      )
  unfolding expire_keys get
  expire_keys_lem [] m ids s h c d k n = rw (append-nil ids, append-nil s.evicted) refl
  expire_keys_lem ((v, id) ∷ keys) m ids s h c d k n =
      let (b, e, w, x) = k.0 in
      let keep = no_gain s total i v m keys c (again n) in
      let next = multiplied s.reserve i v m keys c.inner_is d.0 (again n) in
      elim (Bool-cases (leb until v)) [
        | inl y ↦
            let a : leb (suc total) v ≡ true = ground arith in
            let t : leb_ℤ (pos until) (pos v) ≡ true = ground arith in
            rw (e, w, t, y, a, append-nil ids, append-nil s.evicted) refl
        | inr o ↦
            let t : leb_ℤ (pos until) (pos v) ≡ false = ground arith in
            let s' = note_evicted id s in
            let rest = λ (l : List ℕ).
              expire_keys_lem keys (multiply s.reserve v m) l s' h (collecting' id) d.1 k.1 next in
            let all : (s.evicted ++ id ∷ []) ++ ids_below until keys
                ≡ s.evicted ++ (id ∷ ids_below until keys) =
              append_assoc s.evicted (id ∷ []) (ids_below until keys) in
            let sum = c.total_is in
            elim (Bool-cases (leb v s.chain.total_amount)) [
              | inl y ↦
                  let a : leb (suc total) v ≡ false = ground arith in
                  rw
                    (
                      e,
                      w,
                      t,
                      o,
                      a,
                      y,
                      x,
                      always id,
                      keep,
                      rest (ids ++ id ∷ []),
                      all,
                      append_assoc ids (id ∷ []) (ids_below (suc total) keys),
                    )
                    refl
              | inr z ↦
                  let a : leb (suc total) v ≡ true = ground arith in
                  let empty =
                    ids_below-none (suc total) keys
                      (AllFrom-le (suc total) v keys (ground arith) d.0) in
                  rw (e, w, t, o, a, z, x, always id, keep, rest ids, all, empty) refl
            ]
      ]
    where
      again : (m ≡ 0) ⊎ AllFrom i ((v, id) ∷ keys) → (m ≡ 0) ⊎ AllFrom i ((v, 0) ∷ keys)
      again (inl z) = inl z
      again (inr f) = inr f

      collecting' : (id : ℕ) → Collecting (note_evicted id s) total i
      collecting' id = record {
        total_is = c.total_is;
        inner_is = c.inner_is;
        inner_positive = c.inner_positive;
        radius_positive = c.radius_positive;
        radius_small = c.radius_small;
        not_above = c.not_above;
        not_below = c.not_below;
      }
