-- ===== src/Localstore/Put.antt =====
-- Put and its steps (pkg/localstore/mode_put.go). The reads see the database, the writes are collected;
-- binIDs is the list of the bin ids that a call took so far. `now` is the time, which does not change
-- during a call.
use sana.Common.{
  ℕ, Bool, true, false, not, ◌&&◌, Option, none, some, List, [], ◌∷◌, ◌++◌, map, ◌⊎◌, inl, inr,
  if◌then◌else◌,
}
use sana.Common.Int.{ℤ, pos, ◌+ℤ◌}
use sana.Localstore.State.{
  Item, Db, Write, put_access, put_push, put_bin_id, write_batch, Config, Error, Result, failed,
  done, ◌>>=◌, ◌>>◌, pure, tell, inc_gc_size,
}
use sana.Localstore.Set.{set_pin, preserve_or_cache, is_some, note_dirty}
use sana.Localstore.Chunks.{
  Chunk, chunk_to_item, contains_chunk, BinIds, inc_bin_id, Placed, leave_reserve, replace,
  store_item, access_item, stamp_writes, data_write, pull_write,
}

-- The rest of putRequest, with the change of gcSize so far.
unfoldable pub request_new : Config → Db → ℕ → BinIds → Item → Bool → Bool → ℤ → Result Placed
request_new c db now ids item force_pin force_cache change = do
  let taken = inc_bin_id db (c.po item.address) ids
  let stored = store_item now taken.0 item
  tell (data_write stored ∷ stamp_writes stored)
  let known = access_item now stored
  tell (put_access known.address now ∷ [])
  new_change ← preserve_or_cache c db known force_pin force_cache
  tell (if force_cache then [] else pull_write c known ∷ [])
  pure (record { exists = false; change = change +ℤ new_change; ids = taken.1 })

-- Nothing is stored.
abbrev pub not_placed : Bool → BinIds → Result Placed
not_placed exists ids = pure (record { exists = exists; change = pos 0; ids = ids })

abbrev pub is_replacing : Db → Item → Bool
is_replacing db item = is_some (db.postage_index item.batch_id item.index)

abbrev pub leaving : Config → Db → Item → List Write
leaving c db item =
    if is_replacing db item then leave_reserve c db item (db.postage_radius item.batch_id) else []

abbrev pub request_over : Config → Db → ℕ → BinIds → Item → Bool → Bool → Option ℤ → Result Placed
request_over c db now ids item force_pin force_cache none = not_placed false ids
request_over c db now ids item force_pin force_cache (some change) = do
  tell (leaving c db item)
  request_new c db now ids item force_pin force_cache change

unfoldable pub put_request : Config → Db → ℕ → BinIds → Item → Bool → Bool → Result Placed
put_request c db now ids item force_pin force_cache =
    if is_some (db.retrieval_data item.address)
    then not_placed true ids
    else replace c db item (db.postage_index item.batch_id item.index)
      >>= request_over c db now ids item force_pin force_cache

abbrev pub upload_over : Config → Db → ℕ → BinIds → Item → Option ℤ → Result Placed
upload_over c db now ids item none = not_placed false ids
upload_over c db now ids item (some _) = do
  let taken = inc_bin_id db (c.po item.address) ids
  let stored = store_item now taken.0 item
  tell (
      data_write stored
      ∷ pull_write c stored
      ∷ put_push now stored.address stored.tag
      ∷ stamp_writes stored)
  not_placed false taken.1

unfoldable pub put_upload : Config → Db → ℕ → BinIds → Item → Result Placed
put_upload c db now ids item =
    if is_some (db.retrieval_data item.address)
    then not_placed true ids
    else replace c db item (db.postage_index item.batch_id item.index)
      >>= upload_over c db now ids item

abbrev pub sync_over : Config → Db → ℕ → BinIds → Item → Option ℤ → Result Placed
sync_over c db now ids item none = not_placed false ids
sync_over c db now ids item (some _) = do
  tell (leaving c db item)
  let taken = inc_bin_id db (c.po item.address) ids
  let stored = store_item now taken.0 item
  tell (data_write stored ∷ pull_write c stored ∷ stamp_writes stored)
  let known = access_item now stored
  tell (put_access known.address now ∷ [])
  change ← preserve_or_cache c db known false false
  pure (record { exists = false; change = change; ids = taken.1 })

unfoldable pub put_sync : Config → Db → ℕ → BinIds → Item → Result Placed
put_sync c db now ids item =
    if is_some (db.retrieval_data item.address)
    then not_placed true ids
    else replace c db item (db.postage_index item.batch_id item.index)
      >>= sync_over c db now ids item

pub data ModePut : Type 0 where
  mode_put_request : ModePut
  mode_put_request_pin : ModePut
  mode_put_request_cache : ModePut
  mode_put_upload : ModePut
  mode_put_upload_pin : ModePut
  mode_put_sync : ModePut

-- The pin of an uploaded chunk, existing or not.
abbrev pub and_pin : Db → Item → Placed → Result Placed
and_pin db item p = do change ← set_pin db item; pure (record p { change = p.change +ℤ change })

abbrev pub put_one : Config → Db → ℕ → ModePut → BinIds → Item → Result Placed
put_one c db now mode_put_request ids item = put_request c db now ids item false false
put_one c db now mode_put_request_pin ids item = put_request c db now ids item true false
put_one c db now mode_put_request_cache ids item = put_request c db now ids item false true
put_one c db now mode_put_upload ids item = put_upload c db now ids item
put_one c db now mode_put_upload_pin ids item = put_upload c db now ids item >>= and_pin db item
put_one c db now mode_put_sync ids item = put_sync c db now ids item

-- The result of the loop: what exists, the change of gcSize, and the map of the bin ids.
abbrev pub Loop : Type 0
Loop = List Bool × ℤ × BinIds

abbrev pub with_first : Bool → ℤ → Loop → Loop
with_first e change (es, rest, ids) = (e ∷ es, change +ℤ rest, ids)

-- The loop of put, with the chunks before and the chunks that are left.
abbrev pub put_all : Config → Db → ℕ → ModePut → List Chunk → BinIds → List Chunk → Result Loop
put_all c db now mode earlier ids [] = pure ([], pos 0, ids)
put_all c db now mode earlier ids (ch ∷ chs) = elim (contains_chunk ch.address earlier) [
  | true ↦ (do
    rest ← put_all c db now mode (ch ∷ earlier) ids chs
    pure (with_first true (pos 0) rest))
  | false ↦ (do
    p ← put_one c db now mode ids (chunk_to_item ch)
    rest ← put_all c db now mode (ch ∷ earlier) p.ids chs
    pure (with_first p.exists p.change rest))
]

abbrev pub bin_id_writes : BinIds → List Write
bin_id_writes ids = map (λ x. put_bin_id x.0 x.1) ids

abbrev pub Answer : Type 0
Answer = (Error ⊎ List Bool) × Db

abbrev pub finish : Db → Result Loop → Answer
finish db (failed e) = (inl e, db)
finish db (done (es, change, ids) ws) =
    (inr es, write_batch (ws ++ bin_id_writes ids ++ inc_gc_size db change) db)

abbrev pub addresses : List Chunk → List ℕ
addresses chs = map (λ ch. ch.address) chs

-- The part of put under the lock.
abbrev pub put_locked : Config → ℕ → ModePut → List Chunk → Db → Answer
put_locked c now mode chs db =
    let noted = note_dirty (addresses chs) db in finish noted (put_all c noted now mode [] [] chs)

abbrev pub is_pin_mode : ModePut → Bool
is_pin_mode mode_put_request_pin = true
is_pin_mode mode_put_upload_pin = true
is_pin_mode mode_put_request = false
is_pin_mode mode_put_request_cache = false
is_pin_mode mode_put_upload = false
is_pin_mode mode_put_sync = false

-- The test for one existing chunk before the lock is taken.
abbrev pub already : ModePut → List Chunk → Db → Bool
already mode [] db = false
already mode (ch ∷ []) db = not (is_pin_mode mode) && is_some (db.retrieval_data ch.address)
already mode (ch ∷ _ ∷ _) db = false

unfoldable pub put : Config → ℕ → ModePut → List Chunk → Db → Answer
put c now mode chs db =
    if already mode chs db then (inr (true ∷ []), db) else put_locked c now mode chs db
