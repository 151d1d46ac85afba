-- ===== src/Localstore/State.antt =====
-- The indexes of `Db` and the fields that count (pkg/localstore/localstore.go, pkg/localstore/gc.go).
-- An address is 32 bytes, here one number, and so are a batch id and an index. Reads see the
-- database, writes are collected in a batch and take effect together (WriteBatch); that the disk
-- fails is left out. Data and signatures are only carried along, and left out too.
use sana.Common.{
  ℕ, suc, ◌+◌, ◌-◌, ◌%◌, Bool, true, false, ◌&&◌, Option, none, some, List, [], ◌∷◌, ◌++◌, ltb,
  ◌==◌, if◌then◌else◌,
}
use sana.Common.Int.{ℤ, pos, negsuc}
use sana.Common.Word.{u64_mod}
use sana.Localstore.Keys.{GcKey, same_key, put_key, delete_key}

-- shed.Item, with 0 for a field that is not set.
pub record Item : Type 0 where
  pub address : ℕ
  pub tag : ℕ
  pub batch_id : ℕ
  pub index : ℕ
  pub timestamp : ℕ
  pub radius : ℕ
  pub immutable : Bool
  pub store_timestamp : ℕ
  pub access_timestamp : ℕ
  pub bin_id : ℕ

-- A value of the retrieval data index.
pub record Stored : Type 0 where
  pub store_timestamp : ℕ
  pub bin_id : ℕ
  pub batch_id : ℕ
  pub index : ℕ
  pub timestamp : ℕ

pub record Db : Type 0 where
  pub retrieval_data : ℕ → Option Stored
  pub retrieval_access : ℕ → Option ℕ
  -- by proximity and bin id
  pub pull : ℕ → ℕ → Option ℕ
  -- by store timestamp and address, the tag
  pub push : ℕ → ℕ → Option ℕ
  pub gc : List GcKey
  -- the batch and the index that a key of gc has as its value
  pub gc_value : GcKey → ℕ × ℕ
  pub pin : ℕ → Option ℕ
  -- by batch and address
  pub postage_chunks : ℕ → ℕ → Bool
  pub postage_radius : ℕ → Option ℕ
  -- by batch and index, the address and the timestamp of the stamp
  pub postage_index : ℕ → ℕ → Option (ℕ × ℕ)
  pub bin_ids : ℕ → ℕ
  pub gc_size : ℕ
  pub reserve_size : ℕ
  pub gc_running : Bool
  pub dirty_addresses : List ℕ

pub data Write : Type 0 where
  put_data : ℕ → Stored → Write
  delete_data : ℕ → Write
  put_access : ℕ → ℕ → Write
  delete_access : ℕ → Write
  put_pull : ℕ → ℕ → ℕ → Write
  delete_pull : ℕ → ℕ → Write
  put_push : ℕ → ℕ → ℕ → Write
  delete_push : ℕ → ℕ → Write
  put_gc : GcKey → ℕ → ℕ → Write
  delete_gc : GcKey → Write
  put_pin : ℕ → ℕ → Write
  delete_pin : ℕ → Write
  put_postage_chunk : ℕ → ℕ → Write
  delete_postage_chunk : ℕ → ℕ → Write
  put_radius : ℕ → ℕ → Write
  delete_radius : ℕ → Write
  put_postage_index : ℕ → ℕ → ℕ → ℕ → Write
  delete_postage_index : ℕ → ℕ → Write
  put_bin_id : ℕ → ℕ → Write
  put_gc_size : ℕ → Write
  put_reserve_size : ℕ → Write

abbrev pub at : {A : Type 0} → ℕ → A → (ℕ → A) → ℕ → A
at k v f j = if k == j then v else f j

abbrev pub at2 : {A : Type 0} → ℕ → ℕ → A → (ℕ → ℕ → A) → ℕ → ℕ → A
at2 k l v f i j = if (k == i) && (l == j) then v else f i j

unfoldable pub write : Write → Db → Db
write (put_data a v) db = record db { retrieval_data = at a (some v) db.retrieval_data }
write (delete_data a) db = record db { retrieval_data = at a none db.retrieval_data }
write (put_access a t) db = record db { retrieval_access = at a (some t) db.retrieval_access }
write (delete_access a) db = record db { retrieval_access = at a none db.retrieval_access }
write (put_pull p b a) db = record db { pull = at2 p b (some a) db.pull }
write (delete_pull p b) db = record db { pull = at2 p b none db.pull }
write (put_push t a g) db = record db { push = at2 t a (some g) db.push }
write (delete_push t a) db = record db { push = at2 t a none db.push }
write (put_gc k b i) db = record db {
  gc = put_key k db.gc;
  gc_value = λ j. if same_key k j then (b, i) else db.gc_value j;
}
write (delete_gc k) db = record db { gc = delete_key k db.gc }
write (put_pin a n) db = record db { pin = at a (some n) db.pin }
write (delete_pin a) db = record db { pin = at a none db.pin }
write (put_postage_chunk b a) db = record db { postage_chunks = at2 b a true db.postage_chunks }
write (delete_postage_chunk b a) db = record db { postage_chunks = at2 b a false db.postage_chunks }
write (put_radius b r) db = record db { postage_radius = at b (some r) db.postage_radius }
write (delete_radius b) db = record db { postage_radius = at b none db.postage_radius }
write (put_postage_index b i a t) db = record db {
  postage_index = at2 b i (some (a, t)) db.postage_index;
}
write (delete_postage_index b i) db = record db { postage_index = at2 b i none db.postage_index }
write (put_bin_id p n) db = record db { bin_ids = at p n db.bin_ids }
write (put_gc_size n) db = record db { gc_size = n }
write (put_reserve_size n) db = record db { reserve_size = n }

-- WriteBatch
abbrev pub write_batch : List Write → Db → Db
write_batch [] db = db
write_batch (w ∷ ws) db = write_batch ws (write w db)

pub record Config : Type 0 where
  -- db.po: the proximity of an address to the base key
  pub po : ℕ → ℕ
  pub cache_capacity : ℕ
  pub reserve_capacity : ℕ

pub data Error : Type 0 where
  not_found : Error
  err_overwrite : Error

-- What a step gives and adds to the batch, or its error, with which the batch is not written.
pub data Result (A : Type 0) : Type 0 where
  failed : Error → Result A
  done : A → List Write → Result A

infixl 5 ◌>>=◌ ◌>>◌
abbrev pub append : {A : Type 0} → List Write → Result A → Result A
append ws (failed e) = failed e
append ws (done a vs) = done a (ws ++ vs)

abbrev pub ◌>>=◌ : {A B : Type 0} → Result A → (A → Result B) → Result B
failed e >>= f = failed e
done a ws >>= f = append ws (f a)

abbrev pub ◌>>◌ : {A B : Type 0} → Result A → Result B → Result B
m >> k = m >>= (λ _. k)

abbrev pub pure : {A : Type 0} → A → Result A
pure a = done a []

abbrev pub tell : List Write → Result (Unit {0})
tell ws = done tt ws

abbrev pub found : {A : Type 0} → Option A → Result A
found none = failed not_found
found (some a) = pure a

-- A counter changed by an int64: it does not go below 0, where it stays as it was.
abbrev pub changed : ℤ → ℕ → Option ℕ
changed (pos c) n = if c == 0 then none else some ((n + c) % u64_mod)
changed (negsuc c) n = if ltb n (suc c) then none else some (n - suc c)

abbrev pub write_changed : (ℕ → Write) → Option ℕ → List Write
write_changed w none = []
write_changed w (some n) = w n ∷ []

-- incGCSizeInBatch and incReserveSizeInBatch; that they signal the workers is left out.
abbrev pub inc_gc_size : Db → ℤ → List Write
inc_gc_size db change = write_changed put_gc_size (changed change db.gc_size)

abbrev pub inc_reserve_size : Db → ℤ → List Write
inc_reserve_size db change = write_changed put_reserve_size (changed change db.reserve_size)

-- The value that the retrieval data index has for an item.
abbrev pub stored_of : Item → Stored
stored_of item = record {
  store_timestamp = item.store_timestamp;
  bin_id = item.bin_id;
  batch_id = item.batch_id;
  index = item.index;
  timestamp = item.timestamp;
}

abbrev pub gc_key : Item → GcKey
gc_key item = record { access = item.access_timestamp; bin = item.bin_id; address = item.address }

-- The write that makes an item garbage.
abbrev pub put_garbage : Item → Write
put_garbage item = put_gc (gc_key item) item.batch_id item.index

abbrev pub or_else : ℕ → ℕ → ℕ
or_else x default = if x == 0 then default else x

-- Get of the retrieval data index: the stored fields, and the others of the item that it was given.
abbrev pub merge_stored : Stored → Item → Item
merge_stored v item = record item {
  store_timestamp = or_else v.store_timestamp item.store_timestamp;
  bin_id = or_else v.bin_id item.bin_id;
  batch_id = v.batch_id;
  index = v.index;
  timestamp = v.timestamp;
}

abbrev pub address_to_item : ℕ → Item
address_to_item a = record {
  address = a;
  tag = 0;
  batch_id = 0;
  index = 0;
  timestamp = 0;
  radius = 0;
  immutable = false;
  store_timestamp = 0;
  access_timestamp = 0;
  bin_id = 0;
}
