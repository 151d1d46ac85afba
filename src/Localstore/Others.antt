-- ===== src/Localstore/Others.antt =====
-- What a removal does to the other chunks (pkg/localstore/mode_set.go).
use sana.Common.{
  ℕ, ◌≡◌, refl, ◌∙◌, true, false, Option, none, some, List, [], ◌∷◌, ◌++◌, inl, inr, arith,
  Bool-cases, ◌==◌,
}
use sana.Localstore.Keys.{GcKey, has_key, same_key, has_key-delete_other}
use sana.Localstore.State.{
  Item, Stored, Db, Config, Write, put_data, delete_data, put_access, delete_access, put_pull,
  delete_pull, put_push, delete_push, put_gc, delete_gc, put_pin, delete_pin, put_postage_chunk,
  delete_postage_chunk, put_radius, delete_radius, put_postage_index, delete_postage_index,
  put_bin_id, put_gc_size, put_reserve_size, write, write_batch, ◌>>=◌, found, pure, put_gc_size,
  gc_key, merge_stored,
}
use sana.Localstore.Set.{set_remove, with_access, with_stored, remove_stored}
use sana.Localstore.Collect.{Candidate, member_of}
use sana.Localstore.Counts.{Holds, Holds-bind, Holds-if}
use sana.Localstore.Writes.{gc_all}
use sana.Localstore.Collected.{AreGarbage}

-- A batch writes neither gcRunning nor the dirty addresses.
pub kept-write :
    (w : Write) (db : Db)
    → ((write w db).gc_running ≡ db.gc_running)
      × ((write w db).dirty_addresses ≡ db.dirty_addresses)
unfolding write
kept-write (put_data _ _) db = (refl, refl)
kept-write (delete_data _) db = (refl, refl)
kept-write (put_access _ _) db = (refl, refl)
kept-write (delete_access _) db = (refl, refl)
kept-write (put_pull _ _ _) db = (refl, refl)
kept-write (delete_pull _ _) db = (refl, refl)
kept-write (put_push _ _ _) db = (refl, refl)
kept-write (delete_push _ _) db = (refl, refl)
kept-write (put_gc _ _ _) db = (refl, refl)
kept-write (delete_gc _) db = (refl, refl)
kept-write (put_pin _ _) db = (refl, refl)
kept-write (delete_pin _) db = (refl, refl)
kept-write (put_postage_chunk _ _) db = (refl, refl)
kept-write (delete_postage_chunk _ _) db = (refl, refl)
kept-write (put_radius _ _) db = (refl, refl)
kept-write (delete_radius _) db = (refl, refl)
kept-write (put_postage_index _ _ _ _) db = (refl, refl)
kept-write (delete_postage_index _ _) db = (refl, refl)
kept-write (put_bin_id _ _) db = (refl, refl)
kept-write (put_gc_size _) db = (refl, refl)
kept-write (put_reserve_size _) db = (refl, refl)

pub kept-write_batch :
    (ws : List Write) (db : Db)
    → ((write_batch ws db).gc_running ≡ db.gc_running)
      × ((write_batch ws db).dirty_addresses ≡ db.dirty_addresses)
kept-write_batch [] db = (refl, refl)
kept-write_batch (w ∷ ws) db =
    let h = kept-write_batch ws (write w db) in let k = kept-write w db in (h.0 ∙ k.0, h.1 ∙ k.1)

-- The writes keep the keys of the other addresses.
abbrev pub KeepsOthers : ℕ → List GcKey → List Write → Type 0
KeepsOthers a ks ws = (k : GcKey) → k.address == a ≡ false → has_key k (gc_all ws ks) ≡ has_key k ks

pub other_key :
    (k j : GcKey) (a : ℕ) → j.address ≡ a → k.address == a ≡ false → same_key k j ≡ false
unfolding same_key
other_key k j a e n = ground arith

pub remove_stored-KeepsOthers :
    (c : Config) (db : Db) (item : Item) (a : ℕ)
    → item.address ≡ a
    → Holds (λ _ ws. KeepsOthers a db.gc ws) (remove_stored c db true item)
remove_stored-KeepsOthers c db item a e = elim (Bool-cases (has_key (gc_key item) db.gc)) [
  | inl h ↦
      rw h (λ k n. has_key-delete_other k (gc_key item) db.gc (other_key k (gc_key item) a e n))
  | inr h ↦ rw h (λ k n. refl)
]

-- The item that setRemove looks up has the address that it was given.
abbrev pub IsAt : ℕ → Item → List Write → Type 0
IsAt a item ws = (item.address ≡ a) × (ws ≡ [])

pub with_access-address : (db : Db) (item : Item) → (with_access db item).address ≡ item.address
with_access-address db item = elim (Bool-cases (item.access_timestamp == 0)) [
  | inl e ↦ rw e refl
  | inr n ↦ rw n refl
]

pub with_stored-IsAt : (db : Db) (item : Item) → Holds (IsAt item.address) (with_stored db item)
with_stored-IsAt db item =
    Holds-if (IsAt item.address) (item.store_timestamp == 0)
      (do v ← found (db.retrieval_data item.address); pure (merge_stored v item)) (pure item)
      (λ e. looked_up (db.retrieval_data item.address)) (λ n. (refl, refl))
  where
    looked_up :
        (x : Option Stored)
        → Holds (IsAt item.address) (found x >>= (λ v. pure (merge_stored v item)))
    looked_up none = tt
    looked_up (some v) = (refl, refl)

pub set_remove-KeepsOthers :
    (c : Config) (db : Db) (item : Item)
    → Holds (λ _ ws. KeepsOthers item.address db.gc ws) (set_remove c db true item)
unfolding set_remove
set_remove-KeepsOthers c db item =
    let known = with_access db item in
    Holds-bind (IsAt known.address) (λ _ ws. KeepsOthers item.address db.gc ws)
      (with_stored db known) (λ i. remove_stored c db true i) (with_stored-IsAt db known)
      (λ i ws h.
        rw h.1 (remove_stored-KeepsOthers c db i item.address (h.0 ∙ with_access-address db item)))

pub member_of_snoc :
    (x a : ℕ) (bs : List ℕ)
    → member_of x (bs ++ a ∷ []) ≡ false
    → (member_of x bs ≡ false) × (x == a ≡ false)
member_of_snoc x a [] h = (refl, ground arith)
member_of_snoc x a (b ∷ bs) h =
    let ih = member_of_snoc x a bs in
    let n : x == b ≡ false = ground arith in
    let m : member_of x (bs ++ a ∷ []) ≡ false = ground arith in (rw (n, (ih m).0) refl, (ih m).1)

pub removed-AreGarbage :
    (dirty : List ℕ) (a : ℕ) (ks : List Candidate) (gc js : List GcKey)
    → ((k : GcKey) → k.address == a ≡ false → has_key k js ≡ has_key k gc)
    → AreGarbage dirty ks gc
    → AreGarbage (dirty ++ a ∷ []) ks js
removed-AreGarbage dirty a [] gc js h g = tt
removed-AreGarbage dirty a (k ∷ ks) gc js h g = (
  λ n. let m = member_of_snoc k.key.address a dirty n in h k.key m.1 ∙ g.0 m.0,
  removed-AreGarbage dirty a ks gc js h g.1,
)
