-- ===== src/Localstore/Collect.antt =====
-- collectGarbage (pkg/localstore/gc.go) in two steps, before the lock is taken again and under it, with
-- other calls between them. The target, which is computed with floating point, is an argument.
use sana.Common.{
  ℕ, suc, ◌+◌, ◌-◌, ◌%◌, Bool, true, false, ◌||◌, List, [], ◌∷◌, ◌++◌, leb, ◌==◌, if◌then◌else◌,
  length,
}
use sana.Common.Word.{u64_mod}
use sana.Localstore.Keys.{GcKey}
use sana.Localstore.State.{
  Db, Write, delete_data, delete_access, delete_pull, delete_gc, delete_postage_chunk,
  delete_postage_index, put_gc_size, write_batch, Config,
}

abbrev pub gc_batch_size : ℕ
gc_batch_size = 2000

-- The difference of two uint64.
unfoldable pub sub64 : ℕ → ℕ → ℕ
sub64 a b = (a + (u64_mod - b)) % u64_mod

-- An item of the index of garbage.
pub record Candidate : Type 0 where
  pub key : GcKey
  pub batch_id : ℕ
  pub index : ℕ

abbrev pub candidate : Db → GcKey → Candidate
candidate db k = record { key = k; batch_id = (db.gc_value k).0; index = (db.gc_value k).1 }

-- The iteration over the index, from the oldest key, with the number collected before.
unfoldable pub select : Db → ℕ → ℕ → List GcKey → List Candidate
select db target n [] = []
select db target n (k ∷ ks) =
    let rest = select db target (suc n) ks in
    if leb (sub64 db.gc_size n) target
    then []
    else if leb gc_batch_size (suc n)
    then candidate db k ∷ []
    else candidate db k ∷ rest

-- The first step.
abbrev pub start_collecting : Db → Db
start_collecting db = record db { gc_running = true }

abbrev pub member_of : ℕ → List ℕ → Bool
member_of a [] = false
member_of a (b ∷ bs) = (a == b) || member_of a bs

abbrev pub removal : Config → Candidate → List Write
removal c k =
    delete_data k.key.address
    ∷ delete_access k.key.address
    ∷ delete_pull (c.po k.key.address) k.key.bin
    ∷ delete_gc k.key
    ∷ delete_postage_chunk k.batch_id k.key.address
    ∷ delete_postage_index k.batch_id k.index
    ∷ []

-- The loop over the candidates: the number that stays collected.
abbrev pub weed : List ℕ → ℕ → List Candidate → ℕ
weed dirty n [] = n
weed dirty n (k ∷ ks) =
    let less = weed dirty (sub64 n 1) ks in
    let same = weed dirty n ks in if member_of k.key.address dirty then less else same

abbrev pub removals : Config → List ℕ → List Candidate → List Write
removals c dirty [] = []
removals c dirty (k ∷ ks) =
    let rest = removals c dirty ks in
    if member_of k.key.address dirty then rest else removal c k ++ rest

-- The deferred reset.
abbrev pub stop_collecting : Db → Db
stop_collecting db = record db { gc_running = false; dirty_addresses = [] }

-- The second step: the number of the chunks that it removed, whether it is done, and the database.
unfoldable pub collect : Config → ℕ → List Candidate → Db → (ℕ × Bool) × Db
collect c target ks db =
    let collected = weed db.dirty_addresses (length ks) ks in
    let size = sub64 db.gc_size collected in
    (
      (collected, leb size target),
      stop_collecting (write_batch (removals c db.dirty_addresses ks ++ put_gc_size size ∷ []) db),
    )

-- Both steps, with what happens between them.
unfoldable pub collect_garbage : Config → ℕ → (Db → Db) → Db → (ℕ × Bool) × Db
collect_garbage c target between db =
    let started = start_collecting db in
    if db.gc_size == target
    then ((0, true), stop_collecting started)
    else collect c target (select started target 0 started.gc) (between started)
