-- ===== src/Batchstore/Saved.antt =====
-- What Put saves of the reserve (pkg/postage/batchstore/store.go, pkg/postage/batchstore/reserve.go).
use sana.Common.{ℕ, suc, ◌≡◌, refl, true, some, ◌==◌, arith}
use sana.Common.Outcome.{done}
use sana.Common.Int.{pos, leb_ℤ}
use sana.Reserve.State.{ReserveState, change}
use sana.Batchstore.State.{
  Batch, Store, put, update, evict_outer, unreserve, reopen, take_change, insert_key, delete_key,
  tell_radius, set_batch,
}

-- The reserve after change, before anything is evicted.
abbrev pub changed_reserve : Batch → ℕ → ℕ → Store → ReserveState
changed_reserve b value depth s =
    (take_change (change s.reserve (pos b.value) (pos value) b.depth depth) b.id s).reserve

-- Put of a batch for which there is capacity succeeds, with the reserve that change gives in memory, and
-- does not save it: New finds the reserve, with its limits and its capacity, as it was saved before,
-- while it finds the batch and its key.
pub put-Unsaved :
    (fuel : ℕ) (b : Batch) (value depth : ℕ) (s : Store)
    → leb_ℤ (pos 0) (changed_reserve b value depth s).available ≡ true
    → (t : Store) × (put (suc fuel) b value depth s ≡ done t)
      × (t.reserve ≡ changed_reserve b value depth s)
      × ((reopen t).reserve ≡ (reopen s).reserve)
      × ((reopen t).batches b.id ≡ some (record b { value = value; depth = depth }))
unfolding put update evict_outer unreserve reopen
put-Unsaved fuel b value depth s h =
    let new = record b { value = value; depth = depth } in
    let keys = insert_key (value, b.id) (delete_key (b.value, b.id) s.values) in
    let changed =
      take_change (change s.reserve (pos b.value) (pos value) b.depth depth) b.id
        (record s { values = keys }) in
    let here : b.id == b.id ≡ true = ground arith in
    (
      record (tell_radius changed) { batches = set_batch b.id (some new) changed.batches },
      rw h refl,
      refl,
      refl,
      rw here refl,
    )
