-- ===== src/Localstore/Writes.antt =====
-- What each write of a batch does to the garbage and to its size (pkg/localstore/gc.go).
use sana.Common.{ℕ, ◌≡◌, refl, List, [], ◌∷◌, ◌++◌}
use sana.Localstore.Keys.{GcKey, put_key, delete_key}
use sana.Localstore.State.{
  Db, Write, put_data, delete_data, put_access, delete_access, put_pull, delete_pull, put_push,
  delete_push, put_gc, delete_gc, put_pin, delete_pin, put_postage_chunk, delete_postage_chunk,
  put_radius, delete_radius, put_postage_index, delete_postage_index, put_bin_id, put_gc_size,
  put_reserve_size, write, write_batch,
}

abbrev pub gc_step : Write → List GcKey → List GcKey
gc_step (put_gc k b i) ks = put_key k ks
gc_step (delete_gc k) ks = delete_key k ks
gc_step _ ks = ks

abbrev pub size_step : Write → ℕ → ℕ
size_step (put_gc_size n) m = n
size_step _ m = m

abbrev pub gc_all : List Write → List GcKey → List GcKey
gc_all [] ks = ks
gc_all (w ∷ ws) ks = gc_all ws (gc_step w ks)

abbrev pub size_all : List Write → ℕ → ℕ
size_all [] n = n
size_all (w ∷ ws) n = size_all ws (size_step w n)

pub gc_all-append :
    (ws vs : List Write) (ks : List GcKey) → gc_all (ws ++ vs) ks ≡ gc_all vs (gc_all ws ks)
gc_all-append [] vs ks = refl
gc_all-append (w ∷ ws) vs ks = gc_all-append ws vs (gc_step w ks)

pub size_all-append :
    (ws vs : List Write) (n : ℕ) → size_all (ws ++ vs) n ≡ size_all vs (size_all ws n)
size_all-append [] vs n = refl
size_all-append (w ∷ ws) vs n = size_all-append ws vs (size_step w n)

gc-write : (w : Write) (db : Db) → (write w db).gc ≡ gc_step w db.gc
unfolding write
gc-write (put_data _ _) db = refl
gc-write (delete_data _) db = refl
gc-write (put_access _ _) db = refl
gc-write (delete_access _) db = refl
gc-write (put_pull _ _ _) db = refl
gc-write (delete_pull _ _) db = refl
gc-write (put_push _ _ _) db = refl
gc-write (delete_push _ _) db = refl
gc-write (put_gc _ _ _) db = refl
gc-write (delete_gc _) db = refl
gc-write (put_pin _ _) db = refl
gc-write (delete_pin _) db = refl
gc-write (put_postage_chunk _ _) db = refl
gc-write (delete_postage_chunk _ _) db = refl
gc-write (put_radius _ _) db = refl
gc-write (delete_radius _) db = refl
gc-write (put_postage_index _ _ _ _) db = refl
gc-write (delete_postage_index _ _) db = refl
gc-write (put_bin_id _ _) db = refl
gc-write (put_gc_size _) db = refl
gc-write (put_reserve_size _) db = refl

gc_size-write : (w : Write) (db : Db) → (write w db).gc_size ≡ size_step w db.gc_size
unfolding write
gc_size-write (put_data _ _) db = refl
gc_size-write (delete_data _) db = refl
gc_size-write (put_access _ _) db = refl
gc_size-write (delete_access _) db = refl
gc_size-write (put_pull _ _ _) db = refl
gc_size-write (delete_pull _ _) db = refl
gc_size-write (put_push _ _ _) db = refl
gc_size-write (delete_push _ _) db = refl
gc_size-write (put_gc _ _ _) db = refl
gc_size-write (delete_gc _) db = refl
gc_size-write (put_pin _ _) db = refl
gc_size-write (delete_pin _) db = refl
gc_size-write (put_postage_chunk _ _) db = refl
gc_size-write (delete_postage_chunk _ _) db = refl
gc_size-write (put_radius _ _) db = refl
gc_size-write (delete_radius _) db = refl
gc_size-write (put_postage_index _ _ _ _) db = refl
gc_size-write (delete_postage_index _ _) db = refl
gc_size-write (put_bin_id _ _) db = refl
gc_size-write (put_gc_size _) db = refl
gc_size-write (put_reserve_size _) db = refl

pub gc-write_batch : (ws : List Write) (db : Db) → (write_batch ws db).gc ≡ gc_all ws db.gc
gc-write_batch [] db = refl
gc-write_batch (w ∷ ws) db = rw (gc-write_batch ws (write w db), gc-write w db) refl

pub gc_size-write_batch :
    (ws : List Write) (db : Db) → (write_batch ws db).gc_size ≡ size_all ws db.gc_size
gc_size-write_batch [] db = refl
gc_size-write_batch (w ∷ ws) db = rw (gc_size-write_batch ws (write w db), gc_size-write w db) refl
