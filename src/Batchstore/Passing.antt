-- ===== src/Batchstore/Passing.antt =====
-- One pass of evictOuter over the keys (pkg/postage/batchstore/reserve.go).
use sana.Common.{
  ℕ, suc, ◌+◌, ◌*◌, ◌^◌, ◌≤◌, ◌<◌, ◌≡◌, refl, sym, ap, subst, ◌∙◌, true, false, not, ◌&&◌, some,
  List, [], ◌∷◌, ltb, if◌then◌else◌, inl, inr, Bool-cases, arith,
}
use sana.Common.Int.{pos, pos_part, neg_part, ltb_ℤ, leb_ℤ, eqb_ℤ}
use sana.Common.Word.{u8_mod}
use sana.Reserve.State.{exp2, sub8}
use sana.Common.Outcome.{done}
use sana.Batchstore.State.{Batch, Store, evict_keys, evict_key, take_outer, unreserve}
use sana.Batchstore.Outer.{
  half, used, Deep, AllFrom, IsSorted, AllFound, find_in, depth_or, depth_in, AllFrom-le,
  used-above, half_lem,
}
use sana.Batchstore.Taking.{
  batch_at-found, Fits, Passed, Passed-skip, Passed-stop, Passed-take, add_half,
}

module _ (last : Batch) (top : ℕ) where
  abbrev depths : Store → ℕ → ℕ
  depths s = depth_in last s.batches

  -- The hypotheses on a store before a pass.
  pub record Ready (s : Store) (o : ℕ) (keys : List (ℕ × ℕ)) : Type 0 where
    pub outer_is : s.reserve.outer_limit ≡ pos o
    pub sorted : IsSorted keys
    pub all_found : AllFound (find_in last s.batches) keys
    pub deep : Deep (depth_in last s.batches) s.reserve.radius top keys
    pub bounded : top ≤ s.reserve.radius + 62
    pub fits : Fits s (used (depth_in last s.batches) s.reserve.radius o keys)

  abbrev Through : Store → ℕ → List (ℕ × ℕ) → Type 0
  Through s o keys =
      (t : Store) × (evict_keys last keys s ≡ done t) × Passed (depth_in last s.batches) s t o keys

  module _ (t8 : top < u8_mod) where
    take-Ready :
        (s : Store) (o v id : ℕ) (keys : List (ℕ × ℕ)) (c : Batch)
        → c.value ≡ v
        → c.depth ≡ depth_in last s.batches id
        → o ≤ v
        → s.reserve.radius < 192
        → Ready s o ((v, id) ∷ keys)
        → let s' = unreserve c.id s.reserve.radius (take_outer c s) in
          Ready s' v keys
          × (pos_part s'.reserve.available + neg_part s.reserve.available
              ≡ pos_part s.reserve.available
                + half s.reserve.radius (depth_in last s.batches id)
                + neg_part s'.reserve.available)
    unfolding unreserve
    take-Ready s o v id keys c e d h r8 k =
        let a : ltb v o ≡ false = ground arith in
        let deep = k.deep in
        let deep_here = k.deep.0 in
        let w = half s.reserve.radius c.depth in
        let size : exp2 (sub8 (sub8 c.depth s.reserve.radius) 1) ≡ pos w =
          let x = k.bounded in
          half_lem s.reserve c.depth (subst (λ q. s.reserve.radius < q) (sym d) deep.0.0)
            (subst (λ q. q ≤ s.reserve.radius + 62) (sym d) (omega arith))
            (subst (λ q. q < u8_mod) (sym d) (omega arith)) r8 in
        let above : used (depths s) s.reserve.radius v keys
            ≡ used (depths s) s.reserve.radius o keys =
          used-above (depths s) s.reserve.radius v o keys k.sorted.0
            (AllFrom-le o v keys h k.sorted.0) in
        let need : pos_part s.reserve.available
              + (2 * half s.reserve.radius (depths s id) + used (depths s) s.reserve.radius o keys)
            ≤ 2 ^ 62 + neg_part s.reserve.available =
          subst
            (λ q.
              pos_part s.reserve.available
                + ((if q
                      then half s.reserve.radius (depths s id)
                      else 2 * half s.reserve.radius (depths s id))
                    + used (depths s) s.reserve.radius o keys)
              ≤ 2 ^ 62 + neg_part s.reserve.available)
            a k.fits.1 in
        let (low, high, same) =
          add_half s.reserve.available (half s.reserve.radius (depths s id))
            (used (depths s) s.reserve.radius o keys) k.fits.0 need in
        rw (size, d)
          (
            record {
              outer_is = ap pos e;
              sorted = k.sorted.1;
              all_found = k.all_found.1;
              deep = deep.1;
              bounded = k.bounded;
              fits = (low, rw above high);
            },
            same,
          )

    -- One key, when the rest of the pass goes through.
    key-Through :
        (s : Store) (o v id : ℕ) (keys : List (ℕ × ℕ)) (c : Batch)
        → c.value ≡ v
        → c.depth ≡ depth_in last s.batches id
        → s.reserve.radius < 192
        → Ready s o ((v, id) ∷ keys)
        → (Ready s o keys → Through s o keys)
        → (let s' = unreserve c.id s.reserve.radius (take_outer c s) in
            Ready s' v keys → Through s' v keys)
        → (t : Store) × (evict_key (some c) (evict_keys last keys) s ≡ done t)
          × Passed (depth_in last s.batches) s t o ((v, id) ∷ keys)
    unfolding unreserve
    key-Through s o v id keys c e d r8 k skip take =
        elim (Bool-cases (ltb_ℤ (pos c.value) s.reserve.outer_limit)) [
          | inl x ↦
              let u = k.outer_is in
              let below : v < o = ground arith in
              let (t, ended, p) = skip (rest_of below) in
              (t, rw x ended, Passed-skip (depths s) s t o v id keys below p)
          | inr n ↦
              let u = k.outer_is in
              let above : o ≤ v = ground arith in
              let test =
                leb_ℤ (pos 0) s.reserve.available
                && not (eqb_ℤ s.reserve.outer_limit (pos c.value)) in
              elim (Bool-cases test) [
                | inl y ↦
                    let apart : suc o ≤ v = ground arith in
                    let enough : neg_part s.reserve.available ≤ pos_part s.reserve.available =
                      ground arith in
                    let all : AllFrom (suc o) ((v, id) ∷ keys) =
                      (apart, AllFrom-le (suc o) v keys apart k.sorted.0) in
                    (
                      s,
                      rw (n, y) refl,
                      Passed-stop (depths s) s o ((v, id) ∷ keys) u enough k.fits.0 all,
                    )
                | inr m ↦
                    let (ready, more) = take-Ready s o v id keys c e d above r8 k in
                    let s' = unreserve c.id s.reserve.radius (take_outer c s) in
                    let (t, ended, p) = take ready in
                    (
                      t,
                      rw (n, m) ended,
                      Passed-take (depths s) s s' t o v id keys more above k.sorted.0
                          (refl, refl, refl, refl) p,
                    )
              ]
        ]
      where
        rest_of : v < o → Ready s o keys
        rest_of below =
            let a : ltb v o ≡ true = ground arith in
            record {
              outer_is = k.outer_is;
              sorted = k.sorted.1;
              all_found = k.all_found.1;
              deep = k.deep.1;
              bounded = k.bounded;
              fits = (k.fits.0, let f = k.fits.1 in omega arith);
            }

    -- A pass over sorted keys whose batches are found ends, and takes the halves that it should.
    pub evict_keys-Passed :
        (keys : List (ℕ × ℕ)) (s : Store) (o : ℕ)
        → s.reserve.radius < 192
        → Ready s o keys
        → (t : Store) × (evict_keys last keys s ≡ done t)
          × Passed (depth_in last s.batches) s t o keys
    unfolding evict_keys unreserve
    evict_keys-Passed [] s o r8 k = (
      s,
      refl,
      record {
        limit = o;
        limit_is = k.outer_is;
        raised = omega arith;
        balance = refl;
        all_taken = λ g. tt;
        low = k.fits.0;
        batches_kept = refl;
        values_kept = refl;
        radius_kept = refl;
        inner_kept = refl;
      },
    )
    evict_keys-Passed ((v, id) ∷ keys) s o r8 k =
        let (b, e, w) = k.all_found.0 in
        let (c, at, cv, cd) = batch_at-found last id s b e in
        let d : c.depth ≡ depth_in last s.batches id = cd ∙ sym (ap depth_or e) in
        rw at (
          key-Through s o v id keys c (cv ∙ w) d r8 k (evict_keys-Passed keys s o r8)
            (evict_keys-Passed keys (unreserve c.id s.reserve.radius (take_outer c s)) v r8))
