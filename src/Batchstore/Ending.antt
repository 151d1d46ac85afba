-- ===== src/Batchstore/Ending.antt =====
-- How evictOuter ends (pkg/postage/batchstore/reserve.go).
use sana.Common.{
  ℕ, zero, suc, ◌+◌, ◌^◌, ◌%◌, ◌≤◌, ◌<◌, ◌≡◌, refl, subst, ◌∙◌, true, false, ltb, inl, inr,
  Bool-cases, arith, ltb→lt, not_ltb→le,
}
use sana.Common.Int.{pos, pos_part, neg_part, ◌+ℤ◌, ltb_ℤ, leb_ℤ}
use sana.Common.Word.{u8_mod}
use sana.Common.Outcome.{done}
use sana.Batchstore.State.{Batch, Store, evict_keys, evict_outer, raise_outer, deepen, save_reserve}
use sana.Batchstore.Outer.{used, depth_in}
use sana.Batchstore.Passing.{evict_keys-Passed}
use sana.Batchstore.Taking.{Passed}
use sana.Batchstore.Sound.{
  halves, used-halves, used-deeper, Deep-le, IsSound, IsSettled, sound-Ready, passed-IsSound,
  FitsAt,
}

module _ (last : Batch) (top most i : ℕ) (t8 : top < u8_mod) (m8 : most < 192) where
  raise_one : (l : ℕ) → pos l +ℤ pos 1 ≡ pos (suc l)
  unfolding ◌+ℤ◌
  raise_one l = ground arith

  finish-IsSettled :
      (s t : Store) (o : ℕ)
      → FitsAt last top most s
      → s.reserve.radius ≤ most
      → IsSound last top s o i
      → Passed (depth_in last s.batches) s t o s.values
      → neg_part t.reserve.available ≤ pos_part t.reserve.available
      → IsSettled last top most i s (save_reserve (raise_outer t))
  finish-IsSettled s t o f r k p left =
      let l = suc p.limit in
      let u = save_reserve (raise_outer t) in
      let same = p.radius_kept in
      let next : u.reserve.outer_limit ≡ pos l = rw p.limit_is (raise_one p.limit) in
      let b = p.balance in
      let c = k.full in
      let up = p.raised in
      let w = k.ordered in
      let low = p.low in
      let full : pos_part u.reserve.available
            + used (depth_in last s.batches) s.reserve.radius l s.values
          ≡ 2 ^ 22 + neg_part u.reserve.available =
        omega arith in
      record {
        next_outer = l;
        sound =
            passed-IsSound last top i s u o l k (p.batches_kept, p.values_kept, p.inner_kept, next)
              (omega arith) (omega arith)
              (Deep-le (depth_in last s.batches) u.reserve.radius most top s.values (omega arith)
                f.0)
              low (rw same full);
        left_over = left;
        not_lower = omega arith;
        not_above = omega arith;
        batches_kept = p.batches_kept;
        values_kept = p.values_kept;
      }

  -- At the largest radius the inner halves fit, so that capacity is left.
  last-fits :
      (s t : Store) (o : ℕ)
      → FitsAt last top most s
      → most ≡ s.reserve.radius
      → IsSound last top s o i
      → Passed (depth_in last s.batches) s t o s.values
      → neg_part t.reserve.available ≤ pos_part t.reserve.available
  last-fits s t o f e k p =
      elim (Bool-cases (ltb (pos_part t.reserve.available) (neg_part t.reserve.available))) [
        | inl y ↦
            let low = ltb→lt (pos_part t.reserve.available) (neg_part t.reserve.available) y in
            let all =
              used-halves (depth_in last s.batches) s.reserve.radius p.limit s.values
                (p.all_taken low) in
            let b = p.balance in
            let c = k.full in
            let h : halves (depth_in last s.batches) s.reserve.radius s.values ≤ 2 ^ 22 =
              subst (λ r. halves (depth_in last s.batches) r s.values ≤ 2 ^ 22) e f.1 in
            absurd (omega arith)
        | inr m ↦ not_ltb→le (pos_part t.reserve.available) (neg_part t.reserve.available) m
      ]

  deepen-IsSound :
      (s t : Store) (o n : ℕ)
      → FitsAt last top most s
      → most ≡ s.reserve.radius + suc n
      → IsSound last top s o i
      → Passed (depth_in last s.batches) s t o s.values
      → pos_part t.reserve.available < neg_part t.reserve.available
      → IsSound last top (deepen (raise_outer t)) i i
        × ((deepen (raise_outer t)).reserve.radius ≡ suc s.reserve.radius)
  deepen-IsSound s t o n f e k p low =
      let u = deepen (raise_outer t) in
      let same = p.radius_kept in
      let up : (t.reserve.radius + 1) % u8_mod ≡ suc s.reserve.radius = omega arith in
      let deep =
        Deep-le (depth_in last s.batches) (suc s.reserve.radius) most top s.values (omega arith)
          f.0 in
      let all =
        used-halves (depth_in last s.batches) s.reserve.radius p.limit s.values (p.all_taken low) in
      let wide =
        used-deeper (depth_in last s.batches) s.reserve.radius top i s.values k.above deep in
      let b = p.balance in
      let c = k.full in
      let full : pos_part t.reserve.available
            + used (depth_in last s.batches) (suc s.reserve.radius) i s.values
          ≡ 2 ^ 22 + neg_part t.reserve.available =
        omega arith in
      (
        passed-IsSound last top i s u o i k
            (p.batches_kept, p.values_kept, p.inner_kept, p.inner_kept ∙ k.inner_is) (omega arith)
            (omega arith) (rw up deep) p.low (rw up full),
        up,
      )

  FitsAt-deepen :
      (s t : Store) (o : ℕ)
      → Passed (depth_in last s.batches) s t o s.values
      → FitsAt last top most s
      → FitsAt last top most (deepen (raise_outer t))
  FitsAt-deepen s t o p f = rw (p.batches_kept, p.values_kept) f

  -- One round: the pass, and the rounds after it when it left no capacity.
  one_round :
      (n : ℕ) (s t : Store) (o : ℕ)
      → s.reserve.radius ≤ most
      → FitsAt last top most s
      → IsSound last top s o i
      → leb_ℤ (pos 0) s.reserve.available ≡ false
      → evict_keys last s.values s ≡ done t
      → Passed (depth_in last s.batches) s t o s.values
      → (pos_part t.reserve.available < neg_part t.reserve.available
          → (u : Store) × (evict_outer n last (deepen (raise_outer t)) ≡ done u)
            × IsSettled last top most i s u)
      → (u : Store) × (evict_outer (suc n) last s ≡ done u) × IsSettled last top most i s u
  unfolding evict_outer
  one_round n s t o r f k m through p rec = elim (Bool-cases (ltb_ℤ t.reserve.available (pos 0))) [
    | inl low ↦ let (u, ended, q) = rec (ground arith) in (u, rw (m, through, low) ended, q)
    | inr enough ↦ (
      save_reserve (raise_outer t),
      rw (m, through, enough) refl,
      finish-IsSettled s t o f r k p (ground arith),
    )
  ]

  none_needed :
      (n : ℕ) (s : Store) (o : ℕ)
      → s.reserve.radius ≤ most
      → IsSound last top s o i
      → leb_ℤ (pos 0) s.reserve.available ≡ true
      → (t : Store) × (evict_outer (suc n) last s ≡ done t) × IsSettled last top most i s t
  unfolding evict_outer
  none_needed n s o r k y = (
    s,
    rw y refl,
    record {
      next_outer = o;
      sound = k;
      left_over = ground arith;
      not_lower = omega arith;
      not_above = r;
      batches_kept = refl;
      values_kept = refl;
    },
  )

  -- evictOuter ends, with fuel for each radius from that of the reserve to one at which the inner
  -- halves of all batches fit and which is below their depths: with capacity left, at a radius that is
  -- not above that one, and with the balance kept between the capacity and what the batches take up.
  pub evict_outer-IsSettled :
      (n : ℕ) (s : Store) (o : ℕ)
      → most ≡ s.reserve.radius + n
      → FitsAt last top most s
      → IsSound last top s o i
      → (t : Store) × (evict_outer (suc n) last s ≡ done t) × IsSettled last top most i s t
  evict_outer-IsSettled zero s o e f k = elim (Bool-cases (leb_ℤ (pos 0) s.reserve.available)) [
    | inl y ↦ none_needed 0 s o (omega arith) k y
    | inr m ↦
        let (t, through, p) =
          evict_keys-Passed last top t8 s.values s o (omega arith) (sound-Ready last top i s o k) in
        let left = last-fits s t o f (omega arith) k p in
        one_round 0 s t o (omega arith) f k m through p (λ low. absurd (omega arith))
  ]
  evict_outer-IsSettled (suc n) s o e f k = elim (Bool-cases (leb_ℤ (pos 0) s.reserve.available)) [
    | inl y ↦ none_needed (suc n) s o (omega arith) k y
    | inr m ↦
        let (t, through, p) =
          evict_keys-Passed last top t8 s.values s o (omega arith) (sound-Ready last top i s o k) in
        one_round (suc n) s t o (omega arith) f k m through p (λ low.
          let s' = deepen (raise_outer t) in
          let (next, r) = deepen-IsSound s t o n f e k p low in
          let (u, ended, q) =
            evict_outer-IsSettled n s' i (omega arith) (FitsAt-deepen s t o p f) next in
          let h = q.not_lower in
          (
            u,
            ended,
            record {
              next_outer = q.next_outer;
              sound = q.sound;
              left_over = q.left_over;
              not_lower = omega arith;
              not_above = q.not_above;
              batches_kept = q.batches_kept ∙ p.batches_kept;
              values_kept = q.values_kept ∙ p.values_kept;
            },
          ))
  ]
