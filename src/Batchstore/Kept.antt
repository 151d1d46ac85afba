-- ===== src/Batchstore/Kept.antt =====
-- What Put leaves (pkg/postage/batchstore/store.go, pkg/postage/batchstore/reserve.go).
use sana.Common.{ℕ, ◌^◌, ◌≤◌}
use sana.Batchstore.State.{Batch, Store, insert_key, delete_key}
use sana.Batchstore.Outer.{Deep, depth_in}
use sana.Batchstore.Sound.{halves}

-- The largest radius that is needed: it is below all depths, and the inner halves of all batches fit in
-- the reserve.
abbrev pub EnoughRadius : Store → Batch → ℕ → ℕ → ℕ → ℕ → Type 0
EnoughRadius s b value depth top most =
    let new = record b { value = value; depth = depth } in
    let keys = insert_key (value, b.id) (delete_key (b.value, b.id) s.values) in
    Deep (depth_in new s.batches) most top keys
    × (halves (depth_in new s.batches) most keys ≤ 2 ^ 22)
