-- ===== src/Localstore/Tests.antt =====
-- Runs of the local store, and the theorems at concrete states.
use sana.Common.{
  ℕ, ◌≡◌, ◌%◌, refl, true, false, none, some, [], ◌∷◌, map, inl, inr, arith, ◌==◌, if◌then◌else◌,
}
use sana.Common.Int.{◌+ℤ◌}
use sana.Localstore.Keys.{GcKey, before, same_key, has_key, put_key, delete_key}
use sana.Localstore.State.{
  Stored, Db, Config, err_overwrite, at, at2, write, merge_stored, address_to_item,
}
use sana.Localstore.Set.{set_pin, preserve_or_cache}
use sana.Localstore.Put.{
  Answer, put, put_request, put_upload, request_new, mode_put_request, mode_put_upload,
  mode_put_sync,
}
use sana.Localstore.Chunks.{Chunk, replace}
use sana.Localstore.Collect.{collect_garbage}
use sana.Localstore.Balance.{put-IsBalanced, IsBalanced}
use sana.Localstore.Meanwhile.{removes, collect_garbage-removes}
use sana.Localstore.Again.{put-put}
use sana.Localstore.Get.{update_gc, update_gc-IsBalanced}
use sana.Localstore.Worker.{worker, Stops, worker-Stops}
use sana.Localstore.Replacing.{put_immutable, upload-Forgotten, Forgotten}

abbrev empty : Db
empty = record {
  retrieval_data = λ _. none;
  retrieval_access = λ _. none;
  pull = λ _ _. none;
  push = λ _ _. none;
  gc = [];
  gc_value = λ _. (0, 0);
  pin = λ _. none;
  postage_chunks = λ _ _. false;
  postage_radius = λ _. none;
  postage_index = λ _ _. none;
  bin_ids = λ _. 0;
  gc_size = 0;
  reserve_size = 0;
  gc_running = false;
  dirty_addresses = [];
}

abbrev config : Config
config = record { po = λ a. a % 4; cache_capacity = 10; reserve_capacity = 10 }

-- Address, index, timestamp and radius are given.
abbrev chunk : ℕ → ℕ → ℕ → ℕ → Chunk
chunk a i t r = record {
  address = a;
  tag = 7;
  batch_id = 1;
  index = i;
  timestamp = t;
  radius = r;
  immutable = false;
}

-- Two chunks that are garbage.
abbrev key_a : GcKey
key_a = record { access = 5; bin = 1; address = 8 }

abbrev key_b : GcKey
key_b = record { access = 6; bin = 1; address = 9 }

abbrev value_of : ℕ → ℕ → Stored
value_of t i = record { store_timestamp = t; bin_id = 1; batch_id = 1; index = i; timestamp = 1 }

abbrev two : Db
two = record empty {
  retrieval_data = at 8 (some (value_of 5 1)) (at 9 (some (value_of 6 2)) (λ _. none));
  retrieval_access = at 8 (some 5) (at 9 (some 6) (λ _. none));
  gc = key_a ∷ key_b ∷ [];
  gc_value = λ k. if k.address == 8 then (1, 1) else (1, 2);
  postage_index = at2 1 1 (some (8, 1)) (at2 1 2 (some (9, 1)) (λ _ _. none));
  gc_size = 2;
}

abbrev from_puts : Db
from_puts =
    (put config 6 mode_put_request (chunk 9 2 1 3 ∷ [])
      (put config 5 mode_put_request (chunk 8 1 1 3 ∷ []) empty).1).1

two_put : (from_puts.gc ≡ two.gc) × (from_puts.gc_size ≡ 2)
unfolding put put_request request_new replace preserve_or_cache write before same_key put_key
    has_key ◌+ℤ◌
two_put = (refl, refl)

two-IsBalanced : IsBalanced two
unfolding before
two-IsBalanced = (((refl, tt), (tt, tt)), refl)

-- A chunk within the radius is pinned and counted in the reserve.
abbrev reserved : Db
reserved = (put config 5 mode_put_request (chunk 8 1 1 0 ∷ []) empty).1

in_reserve : (reserved.gc_size ≡ 0) × (reserved.reserve_size ≡ 1) × (reserved.pin 8 ≡ some 1)
unfolding put put_request request_new replace preserve_or_cache write set_pin ◌+ℤ◌
in_reserve = (refl, refl, refl)

key_there : has_key key_a two.gc ≡ true
unfolding has_key same_key
key_there = refl

-- A later chunk with the stamp of the first takes its place.
put-IsBalanced_example : IsBalanced (put config 9 mode_put_request (chunk 10 1 4 3 ∷ []) two).1
put-IsBalanced_example =
    put-IsBalanced config 9 mode_put_request (chunk 10 1 4 3) two (inl refl) two-IsBalanced
      (omega arith)

upload-Forgotten_example : Forgotten (put config 9 mode_put_upload (chunk 10 1 4 3 ∷ []) two).1
upload-Forgotten_example =
    upload-Forgotten config 9 (chunk 10 1 4 3) two 8 1 (value_of 5 1) two-IsBalanced refl refl refl
      refl refl key_there refl

put_immutable_example :
    put config 9 mode_put_sync (record (chunk 10 1 4 3) { immutable = true } ∷ []) two
    ≡ (inl err_overwrite, two)
put_immutable_example =
    put_immutable config 9 mode_put_sync (record (chunk 10 1 4 3) { immutable = true }) two (8, 1)
      refl refl refl

abbrev uploaded : Answer
uploaded = put config 5 mode_put_upload (chunk 8 1 1 3 ∷ []) empty

uploaded_new : uploaded ≡ (inr (false ∷ []), uploaded.1)
unfolding put put_upload replace
uploaded_new = refl

put-put_example :
    put config 7 mode_put_sync (chunk 8 1 1 3 ∷ []) uploaded.1 ≡ (inr (true ∷ []), uploaded.1)
put-put_example =
    put-put config 5 7 mode_put_upload mode_put_sync (chunk 8 1 1 3) empty (false ∷ []) uploaded.1
      tt uploaded_new refl

-- The chunk that is the candidate is removed meanwhile.
collect_garbage-removes_example :
    IsBalanced (collect_garbage config 1 (removes config 7 (8 ∷ [])) two).1
collect_garbage-removes_example =
    collect_garbage-removes config 7 1 (8 ∷ []) two two-IsBalanced (omega arith)

no_key : has_key (record { access = 9; bin = 1; address = 8 }) two.gc ≡ false
unfolding has_key same_key
no_key = refl

-- The chunk at address 8 is read again.
update_gc-IsBalanced_example :
    IsBalanced (update_gc 9 (merge_stored (value_of 5 1) (address_to_item 8)) two)
update_gc-IsBalanced_example =
    update_gc-IsBalanced 9 (merge_stored (value_of 5 1) (address_to_item 8)) two two-IsBalanced
      (inl no_key)

touched_last :
    map (λ k. k.address) (update_gc 9 (merge_stored (value_of 5 1) (address_to_item 8)) two).gc
    ≡ 9 ∷ 8 ∷ []
unfolding update_gc write before same_key has_key put_key delete_key
touched_last = refl

worker-Stops_example : Stops 1 two.gc (worker 3 config 1 two)
worker-Stops_example = worker-Stops 3 config 1 two (omega arith) two-IsBalanced (omega arith) refl
