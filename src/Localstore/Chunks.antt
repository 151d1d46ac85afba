-- ===== src/Localstore/Chunks.antt =====
-- Chunks to be put, their bin ids, and the chunks of the same stamp that they replace
-- (pkg/localstore/mode_put.go).
use sana.Common.{
  ℕ, ◌+◌, ◌%◌, Bool, true, false, ◌||◌, Option, none, some, List, [], ◌∷◌, ltb, leb, ◌==◌,
  if◌then◌else◌,
}
use sana.Common.Int.{ℤ, pos, negsuc}
use sana.Common.Word.{u64_mod}
use sana.Localstore.State.{
  Item, Db, Write, put_data, put_pull, put_postage_chunk, put_postage_index, Config, err_overwrite,
  Result, failed, ◌>>=◌, pure, inc_reserve_size, stored_of,
}
use sana.Localstore.Set.{set_remove}

-- swarm.Chunk with its stamp.
pub record Chunk : Type 0 where
  pub address : ℕ
  pub tag : ℕ
  pub batch_id : ℕ
  pub index : ℕ
  pub timestamp : ℕ
  pub radius : ℕ
  pub immutable : Bool

abbrev pub chunk_to_item : Chunk → Item
chunk_to_item ch = record {
  address = ch.address;
  tag = ch.tag;
  batch_id = ch.batch_id;
  index = ch.index;
  timestamp = ch.timestamp;
  radius = ch.radius;
  immutable = ch.immutable;
  store_timestamp = 0;
  access_timestamp = 0;
  bin_id = 0;
}

abbrev pub contains_chunk : ℕ → List Chunk → Bool
contains_chunk a [] = false
contains_chunk a (c ∷ cs) = (a == c.address) || contains_chunk a cs

abbrev pub BinIds : Type 0
BinIds = List (ℕ × ℕ)

abbrev pub last_bin_id : Db → ℕ → BinIds → ℕ
last_bin_id db po [] = db.bin_ids po
last_bin_id db po ((p, n) ∷ ids) = if po == p then n else last_bin_id db po ids

abbrev pub set_bin_id : ℕ → ℕ → BinIds → BinIds
set_bin_id po n [] = (po, n) ∷ []
set_bin_id po n ((p, m) ∷ ids) =
    let rest = set_bin_id po n ids in if po == p then (po, n) ∷ ids else (p, m) ∷ rest

-- incBinID: the next bin id; the second part is the map after it.
abbrev pub inc_bin_id : Db → ℕ → BinIds → ℕ × BinIds
inc_bin_id db po ids = let id = (last_bin_id db po ids + 1) % u64_mod in (id, set_bin_id po id ids)

-- What a step gives: whether the chunk exists, the change of gcSize, and the map of the bin ids.
pub record Placed : Type 0 where
  pub exists : Bool
  pub change : ℤ
  pub ids : BinIds

-- The item that the postage index has under the stamp of another one.
abbrev pub previous_item : Item → ℕ × ℕ → Item
previous_item item (a, t) = record item { address = a; timestamp = t }

-- A chunk that falls out of the reserve.
abbrev pub leave_reserve : Config → Db → Item → Option ℕ → List Write
leave_reserve c db item none = []
leave_reserve c db item (some radius) =
    if leb radius (c.po item.address) then inc_reserve_size db (negsuc 0) else []

-- A chunk that has the stamp already gives way if it is earlier: then the change of gcSize, and none
-- if it is kept.
unfoldable pub replace : Config → Db → Item → Option (ℕ × ℕ) → Result (Option ℤ)
replace c db item none = pure (some (pos 0))
replace c db item (some (a, t)) =
    if item.immutable
    then failed err_overwrite
    else if ltb t item.timestamp
    then (do change ← set_remove c db true (previous_item item (a, t)); pure (some change))
    else pure none

-- Item with its time of storage and its bin id.
abbrev pub store_item : ℕ → ℕ → Item → Item
store_item now id item = record item { store_timestamp = now; bin_id = id }

abbrev pub access_item : ℕ → Item → Item
access_item now item = record item { access_timestamp = now }

abbrev pub stamp_writes : Item → List Write
stamp_writes item =
    put_postage_chunk item.batch_id item.address
    ∷ put_postage_index item.batch_id item.index item.address item.timestamp
    ∷ []

abbrev pub data_write : Item → Write
data_write item = put_data item.address (stored_of item)

abbrev pub pull_write : Config → Item → Write
pull_write c item = put_pull (c.po item.address) item.bin_id item.address
