-- ===== src/Batchstore/Changing.antt =====
-- The store that evictOuter starts from (pkg/postage/batchstore/store.go).

use sana.Common.{
  ℕ, ◌+◌, ◌^◌, ◌≤◌, ◌<◌, ◌≡◌, refl, sym, ap, subst, ◌∙◌, true, false, ◌&&◌, some, List, ltb, ◌==◌,
  inl, inr, Bool-cases, arith,
}
use sana.Common.Int.{one_part, pos, pos_part, ◌+ℤ◌, ◌-ℤ◌}
use sana.Common.Word.{wrap64}
use sana.Reserve.State.{change}
use sana.Batchstore.State.{Batch, Store, take_change, insert_key, unreserve}
use sana.Batchstore.Outer.{
  AllFrom, AllFound, Deep, AllFrom-le, find_in, depth_in, depth_or, room, used, used-above,
}
use sana.Batchstore.Sound.{IsSound}
use sana.Batchstore.Index.{
  All-delete, All-insert, All-map, All-both, IsSorted-delete, IsSorted-insert, used-insert,
  used-depths,
}
use sana.Batchstore.Putting.{
  next_inner, next_outer, place, Suits, change-place, changed_capacity, room-le, place-le,
}
use sana.Batchstore.AtRest.{depth_at, IsAtRest, IsOwn, others_of, Others, others_lem, find-other}

module _ (s : Store) (b : Batch) (value depth top o i : ℕ) where
  abbrev pub new_batch : Batch
  new_batch = record b { value = value; depth = depth }

  abbrev pub new_keys : List (ℕ × ℕ)
  new_keys = insert_key (value, b.id) (others_of b s)

  -- The store that evictOuter starts from.
  abbrev pub changed : Store
  changed =
      take_change (change s.reserve (pos b.value) (pos value) b.depth depth) b.id
        (record s { values = new_keys })

  -- What the other batches take up does not change with the limits.
  used-kept :
      IsAtRest s top o i
      → Others s b top o i
      → used (depth_in new_batch s.batches) s.reserve.radius (next_outer i o value) (others_of b s)
        ≡ used (depth_at s.batches) s.reserve.radius o (others_of b s)
  used-kept k h =
      let f = depth_in new_batch s.batches in
      let g = depth_at s.batches in
      let same =
        All-map (λ j. j.1 == b.id ≡ false) (λ j. f j.1 ≡ g j.1)
          (λ j e. ap depth_or (find-other new_batch s.batches j.1 e)) (others_of b s) h.other in
      let high = All-delete (λ j. i ≤ j.0) (b.value, b.id) s.values k.above in
      let step = used-depths f s.reserve.radius (next_outer i o value) g (others_of b s) same in
      elim (Bool-cases (ltb value i && o == i)) [
        | inl y ↦
            let e : o ≡ i = ground arith in
            let le : value ≤ i = ground arith in
            let low = AllFrom-le value i (others_of b s) le high in
            step
            ∙ rw y (
                used-above g s.reserve.radius value o (others_of b s) low
                  (subst (λ z. AllFrom z (others_of b s)) (sym e) high))
        | inr n ↦ step ∙ rw n refl
      ]

  new-depth : depth_in new_batch s.batches b.id ≡ depth
  new-depth = let e : b.id == b.id ≡ true = ground arith in rw e refl

  new-found :
      IsAtRest s top o i → Others s b top o i → AllFound (find_in new_batch s.batches) new_keys
  new-found k h =
      let e : b.id == b.id ≡ true = ground arith in
      let Found =
        λ (j : ℕ × ℕ). (c : Batch) × (find_in new_batch s.batches j.1 ≡ some c) × (c.value ≡ j.0) in
      All-insert Found (value, b.id) (others_of b s) (new_batch, rw e refl, refl)
        (All-both (λ j. j.1 == b.id ≡ false)
          (λ j. (c : Batch) × (s.batches j.1 ≡ some c) × (c.value ≡ j.0) × (c.id ≡ j.1)) Found
          (λ j n q. (q.0, find-other new_batch s.batches j.1 n ∙ q.1, q.2)) (others_of b s) h.other
          (All-delete (λ j. (c : Batch) × (s.batches j.1 ≡ some c) × (c.value ≡ j.0) × (c.id ≡ j.1))
            (b.value, b.id) s.values k.known))

  new-Deep :
      IsAtRest s top o i
      → Others s b top o i
      → s.reserve.radius < depth
      → depth ≤ top
      → Deep (depth_in new_batch s.batches) s.reserve.radius top new_keys
  new-Deep k h r t =
      let f = depth_in new_batch s.batches in
      let g = depth_at s.batches in
      let Fits = λ (j : ℕ × ℕ). (s.reserve.radius < f j.1) × (f j.1 ≤ top) in
      let e = new-depth in
      All-insert Fits (value, b.id) (others_of b s) (omega arith, omega arith)
        (All-both (λ j. j.1 == b.id ≡ false) (λ j. (s.reserve.radius < g j.1) × (g j.1 ≤ top)) Fits
          (λ j n q. let same = ap depth_or (find-other new_batch s.batches j.1 n) in rw same q)
          (others_of b s) h.other
          (All-delete (λ j. (s.reserve.radius < g j.1) × (g j.1 ≤ top)) (b.value, b.id) s.values
            k.deep))

  new-above : IsAtRest s top o i → AllFrom (next_inner i value) new_keys
  new-above k =
      All-insert (λ j. next_inner i value ≤ j.0) (value, b.id) (others_of b s) (ground arith)
        (AllFrom-le (next_inner i value) i (others_of b s) (ground arith)
          (All-delete (λ j. i ≤ j.0) (b.value, b.id) s.values k.above))

  -- After change the store is sound for the new value and depth of the batch.
  pub changed-IsSound :
      IsAtRest s top o i
      → IsOwn s b
      → 0 < value
      → Suits s.reserve b.depth
      → Suits s.reserve depth
      → depth ≤ top
      → IsSound new_batch top changed (next_outer i o value) (next_inner i value)
        × (changed.reserve.radius ≡ s.reserve.radius)
  unfolding unreserve
  changed-IsSound k own p so sd t =
      let h = others_lem s b top o i k own in
      let (more, ei, eo, er, ea) =
        change-place s.reserve i o b.value value b.depth depth k.inner_is k.outer_is k.positive
          k.ordered p so sd in
      let r = s.reserve.radius in
      let old = place i r o b.value b.depth in
      let now = room r (next_outer i o value) value depth in
      let before = change s.reserve (pos b.value) (pos value) b.depth depth in
      let available : changed.reserve.available
          ≡ wrap64 (s.reserve.available +ℤ wrap64 (pos old -ℤ pos now)) =
        ap (λ z. wrap64 (z +ℤ before.0.0)) ea ∙ ap (λ m. wrap64 (s.reserve.available +ℤ m)) more in
      let whole = k.full in
      let left = k.left_over in
      let small : pos_part s.reserve.available ≤ 2 ^ 61 = elim (one_part s.reserve.available) [
        | inl e ↦ omega arith
        | inr e ↦ omega arith
      ] in
      let (low, sum) =
        changed_capacity s.reserve.available old now left small
          (place-le s.reserve i o b.value b.depth so)
          (room-le s.reserve (next_outer i o value) value depth sd) in
      let f = depth_in new_batch s.batches in
      let added =
        used-insert f r (next_outer i o value) value b.id (others_of b s) h.other
        ∙ ap
            (λ d.
              room r (next_outer i o value) value d
              + used f r (next_outer i o value) (others_of b s))
            new-depth
        ∙ ap (λ u. now + u) (used-kept k h) in
      let balance = h.balance in
      (
        record {
          outer_is = eo;
          inner_is = ei;
          ordered = let w = k.ordered in ground arith;
          above = new-above k;
          sorted =
              IsSorted-insert (value, b.id) (others_of b s)
                (IsSorted-delete (b.value, b.id) s.values k.sorted);
          all_found = new-found k h;
          deep = rw er (new-Deep k h sd.0 t);
          bounded = rw er k.bounded;
          low = rw available low;
          full = rw (available, er, added) (omega arith);
        },
        er,
      )
