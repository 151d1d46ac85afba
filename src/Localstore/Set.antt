-- ===== src/Localstore/Set.antt =====
-- Set and its steps (pkg/localstore/mode_set.go), preserveOrCache (pkg/localstore/mode_put.go) and
-- withinRadius (pkg/localstore/reserve.go). Each step reads the database and adds to the batch; its
-- result is the change of gcSize. `now` is the time of the call.
use sana.Common.{
  ℕ, ◌+◌, ◌-◌, ◌%◌, Bool, true, false, not, ◌&&◌, ◌||◌, Option, none, some, List, [], ◌∷◌, ◌++◌,
  ltb, leb, ◌==◌, if◌then◌else◌,
}
use sana.Common.Int.{ℤ, pos, negsuc, ◌+ℤ◌}
use sana.Common.Word.{u64_mod}
use sana.Localstore.Keys.{GcKey, has_key}
use sana.Localstore.State.{
  Item, Stored, Db, Write, put_access, delete_data, delete_access, delete_pull, delete_push,
  put_garbage, delete_gc, put_pin, delete_pin, delete_postage_chunk, write_batch, Config, Error,
  Result, failed, done, ◌>>=◌, ◌>>◌, append, pure, tell, found, inc_gc_size, inc_reserve_size,
  gc_key, merge_stored, address_to_item,
}

-- The item with its access timestamp filled in.
abbrev pub with_access : Db → Item → Item
with_access db item =
    if item.access_timestamp == 0
    then record item {
      access_timestamp = elim (db.retrieval_access item.address) [ none ↦ 0 | some t ↦ t ];
    }
    else item

-- The item with the fields that are stored.
abbrev pub with_stored : Db → Item → Result Item
with_stored db item =
    if item.store_timestamp == 0
    then (do v ← found (db.retrieval_data item.address); pure (merge_stored v item))
    else pure item

-- The writes of setRemove before the check.
abbrev pub remove_writes : Config → Item → List Write
remove_writes c item =
    delete_data item.address
    ∷ delete_access item.address
    ∷ delete_pull (c.po item.address) item.bin_id
    ∷ delete_postage_chunk item.batch_id item.address
    ∷ []

abbrev pub remove_stored : Config → Db → Bool → Item → Result ℤ
remove_stored c db check item =
    if check && not (has_key (gc_key item) db.gc)
    then done (pos 0) (remove_writes c item ++ delete_pin item.address ∷ [])
    else done (negsuc 0) (remove_writes c item ++ delete_gc (gc_key item) ∷ [])

unfoldable pub set_remove : Config → Db → Bool → Item → Result ℤ
set_remove c db check item = do
  known ← with_stored db (with_access db item)
  remove_stored c db check known

-- The key under which a chunk with an access timestamp is garbage.
abbrev pub garbage_key : Db → Item → ℕ → Result GcKey
garbage_key db item t = do
  v ← found (db.retrieval_data item.address)
  pure (record { access = t; bin = (merge_stored v item).bin_id; address = item.address })

abbrev pub first_pin : Db → Item → Option ℕ → Result ℤ
first_pin db item none = done (pos 0) (put_pin item.address 1 ∷ [])
first_pin db item (some t) = do
  key ← garbage_key db item t
  done (negsuc 0) (delete_gc key ∷ put_pin item.address 1 ∷ [])

abbrev pub pin_again : Db → Item → Option ℕ → Result ℤ
pin_again db item none = first_pin db item (db.retrieval_access item.address)
pin_again db item (some n) = done (pos 0) (put_pin item.address ((n + 1) % u64_mod) ∷ [])

unfoldable pub set_pin : Db → Item → Result ℤ
set_pin db item = pin_again db item (db.pin item.address)

-- A chunk that is not in the push index becomes garbage.
abbrev pub to_garbage : ℕ → Item → Option ℕ → Result ℤ
to_garbage now item none =
    done (pos 1)
      (put_access item.address now ∷ put_garbage (record item { access_timestamp = now }) ∷ [])
to_garbage now item (some t) =
    done (pos 1) (put_garbage (record item { access_timestamp = t }) ∷ [])

abbrev pub unless_pushed : Db → ℕ → Item → Option ℕ → Result ℤ
unless_pushed db now item (some _) = pure (pos 0)
unless_pushed db now item none = to_garbage now item (db.retrieval_access item.address)

-- The fields that setUnpin takes from the stored chunk; the index and the timestamp of its stamp are
-- not among them.
abbrev pub unpin_item : Stored → ℕ → Item
unpin_item v addr = record (address_to_item addr) {
  store_timestamp = v.store_timestamp;
  bin_id = v.bin_id;
  batch_id = v.batch_id;
}

abbrev pub last_unpin : Db → ℕ → ℕ → Result ℤ
last_unpin db now addr = do
  tell (delete_pin addr ∷ [])
  v ← found (db.retrieval_data addr)
  unless_pushed db now (unpin_item v addr) (db.push v.store_timestamp addr)

unfoldable pub set_unpin : Db → ℕ → ℕ → Result ℤ
set_unpin db now addr = do
  n ← found (db.pin addr)
  if ltb 1 n then done (pos 0) (put_pin addr (n - 1) ∷ []) else last_unpin db now addr

-- withinRadius
abbrev pub within_radius : Config → Item → Bool
within_radius c item = leb item.radius (c.po item.address)

abbrev pub is_some : {A : Type 0} → Option A → Bool
is_some none = false
is_some (some _) = true

unfoldable pub preserve_or_cache : Config → Db → Item → Bool → Bool → Result ℤ
preserve_or_cache c db item force_pin force_cache =
    if not force_cache && (within_radius c item || force_pin)
    then append (if force_pin then [] else inc_reserve_size db (pos 1)) (set_pin db item)
    else if is_some (db.pin item.address) || has_key (gc_key item) db.gc
    then pure (pos 0)
    else done (pos 1) (put_garbage item ∷ [])

-- The chunk has an access timestamp from here on.
abbrev pub accessed : ℕ → Item → Option ℕ → Result Item
accessed now item none =
    done (record item { access_timestamp = now }) (put_access item.address now ∷ [])
accessed now item (some t) = pure (record item { access_timestamp = t })

-- setSync; the second part of the result is the tag whose number of synced chunks goes up.
abbrev pub sync_stored : Config → Db → ℕ → Item → Result (ℤ × Option ℕ)
sync_stored c db now item = do
  tell (delete_push item.store_timestamp item.address ∷ [])
  known ← accessed now item (db.retrieval_access item.address)
  change ← preserve_or_cache c db known false false
  pure (change, db.push item.store_timestamp item.address)

abbrev pub sync_found : Config → Db → ℕ → ℕ → Option Stored → Result (ℤ × Option ℕ)
sync_found c db now addr none = done (pos 0, none) (delete_push 0 addr ∷ [])
sync_found c db now addr (some v) = sync_stored c db now (merge_stored v (address_to_item addr))

unfoldable pub set_sync : Config → Db → ℕ → ℕ → Result (ℤ × Option ℕ)
set_sync c db now addr = sync_found c db now addr (db.retrieval_data addr)

pub data ModeSet : Type 0 where
  mode_set_sync : ModeSet
  mode_set_remove : ModeSet
  mode_set_pin : ModeSet
  mode_set_unpin : ModeSet

abbrev pub set_one : Config → Db → ℕ → ModeSet → ℕ → Result (ℤ × Option ℕ)
set_one c db now mode_set_sync addr = set_sync c db now addr
set_one c db now mode_set_remove addr = do
  change ← set_remove c db true (address_to_item addr)
  pure (change, none)
set_one c db now mode_set_pin addr = do
  change ← set_pin db (address_to_item addr)
  pure (change, none)
set_one c db now mode_set_unpin addr = do change ← set_unpin db now addr; pure (change, none)

-- No tag has the number 0.
abbrev pub and_tag : Option ℕ → List ℕ → List ℕ
and_tag none ts = ts
and_tag (some t) ts = if t == 0 then ts else t ∷ ts

-- The loop of set over the addresses.
abbrev pub set_all : Config → Db → ℕ → ModeSet → List ℕ → Result (ℤ × List ℕ)
set_all c db now mode [] = pure (pos 0, [])
set_all c db now mode (a ∷ rest_addrs) = do
  (change, tag) ← set_one c db now mode a
  (rest, tags) ← set_all c db now mode rest_addrs
  pure (change +ℤ rest, and_tag tag tags)

-- While garbage is collected, the addresses of a call are dirty.
abbrev pub note_dirty : List ℕ → Db → Db
note_dirty addrs db =
    if db.gc_running then record db { dirty_addresses = db.dirty_addresses ++ addrs } else db

abbrev pub commit : Db → Result (ℤ × List ℕ) → Option Error × Db
commit db (failed e) = (some e, db)
commit db (done (change, _) ws) = (none, write_batch (ws ++ inc_gc_size db change) db)

-- set: the error, if any, and the database.
unfoldable pub set : Config → ℕ → ModeSet → List ℕ → Db → Option Error × Db
set c now mode addrs db =
    let noted = note_dirty addrs db in commit noted (set_all c noted now mode addrs)
