-- ===== src/Localstore/Shrinking.antt =====
-- The garbage after setRemove, and after the chunk of the same stamp gave way (pkg/localstore/mode_set.go,
-- pkg/localstore/mode_put.go).
use sana.Common.{
  ℕ, ◌≡◌, refl, true, false, Option, none, some, List, [], inl, inr, arith, Bool-cases, ltb, ◌==◌,
  if◌then◌else◌,
}
use sana.Common.Int.{ℤ, pos, pos_part}
use sana.Localstore.Keys.{
  GcKey, delete_key, has_key, IsAscending, delete_key-IsAscending, length-delete_key,
  has_key-delete_other, has_key-delete_key, same_key, same_key→≡,
}
use sana.Localstore.State.{
  Item, Db, Write, Config, err_overwrite, failed, ◌>>=◌, pure, found, gc_key, merge_stored,
}
use sana.Localstore.Set.{with_access, with_stored, remove_stored, set_remove}
use sana.Localstore.Chunks.{replace, previous_item}
use sana.Localstore.Counts.{Counts, Holds, Holds-bind, Holds-if, Holds-map}
use sana.Localstore.Writes.{gc_all}

-- What setRemove with its check does to the garbage.
abbrev pub Shrinks : List GcKey → ℤ → List Write → Type 0
Shrinks ks c ws =
    Counts ks c ws
    × ((k : GcKey) → has_key k ks ≡ false → has_key k (gc_all ws ks) ≡ false)
    × (pos_part c ≡ 0)

pub delete_key-stays :
    (k j : GcKey) (ks : List GcKey)
    → IsAscending ks
    → has_key k ks ≡ false
    → has_key k (delete_key j ks) ≡ false
delete_key-stays k j ks a h = elim (Bool-cases (same_key k j)) [
  | inl e ↦ rw (← same_key→≡ k j e) (has_key-delete_key k ks a)
  | inr n ↦ rw (has_key-delete_other k j ks n) h
]

pub remove_stored-Shrinks :
    (c : Config) (db : Db) (item : Item)
    → IsAscending db.gc
    → Holds (Shrinks db.gc) (remove_stored c db true item)
remove_stored-Shrinks c db item a = elim (Bool-cases (has_key (gc_key item) db.gc)) [
  | inl e ↦ rw e (
    (
      delete_key-IsAscending (gc_key item) db.gc a,
      (let l = length-delete_key (gc_key item) db.gc e in omega arith),
      λ n. refl,
      omega arith,
    ),
    λ k h. delete_key-stays k (gc_key item) db.gc a h,
    refl,
  )
  | inr n ↦ rw n ((a, refl, λ n. refl, omega arith), λ k h. h, refl)
]

pub found-Holds : {A : Type 0} (x : Option A) → Holds (λ _ ws. ws ≡ []) (found x)
found-Holds none = tt
found-Holds (some a) = refl

pub with_stored-Holds : (db : Db) (item : Item) → Holds (λ _ ws. ws ≡ []) (with_stored db item)
with_stored-Holds db item =
    Holds-if (λ _ ws. ws ≡ []) (item.store_timestamp == 0)
      (do v ← found (db.retrieval_data item.address); pure (merge_stored v item)) (pure item)
      (λ e.
        Holds-map (λ _ ws. ws ≡ []) (λ _ ws. ws ≡ []) (found (db.retrieval_data item.address))
          (λ v. merge_stored v item) (found-Holds (db.retrieval_data item.address)) (λ v ws h. h))
      (λ n. refl)

pub set_remove-Shrinks :
    (c : Config) (db : Db) (item : Item)
    → IsAscending db.gc
    → Holds (Shrinks db.gc) (set_remove c db true item)
unfolding set_remove
set_remove-Shrinks c db item a =
    Holds-bind (λ _ ws. ws ≡ []) (Shrinks db.gc) (with_stored db (with_access db item))
      (λ known. remove_stored c db true known) (with_stored-Holds db (with_access db item))
      (λ known ws h. rw h (remove_stored-Shrinks c db known a))

-- A step that gives way to nothing changes nothing.
abbrev pub GivesWay : List GcKey → Option ℤ → List Write → Type 0
GivesWay ks none ws = ws ≡ []
GivesWay ks (some c) ws = Shrinks ks c ws

pub nothing-Shrinks : (ks : List GcKey) → IsAscending ks → Shrinks ks (pos 0) []
nothing-Shrinks ks a = ((a, refl, λ n. refl, omega arith), λ k h. h, refl)

pub replaced-GivesWay :
    (c : Config) (db : Db) (item : Item) (p : ℕ × ℕ)
    → IsAscending db.gc
    → Holds (GivesWay db.gc) (replace c db item (some p))
unfolding replace
replaced-GivesWay c db item p a =
    Holds-if (GivesWay db.gc) item.immutable (failed err_overwrite)
      (if ltb p.1 item.timestamp
        then set_remove c db true (previous_item item p) >>= (λ change. pure (some change))
        else pure none)
      (λ e. tt)
      (λ n.
        Holds-if (GivesWay db.gc) (ltb p.1 item.timestamp)
          (set_remove c db true (previous_item item p) >>= (λ change. pure (some change)))
          (pure none)
          (λ l.
            Holds-map (Shrinks db.gc) (GivesWay db.gc) (set_remove c db true (previous_item item p))
              some (set_remove-Shrinks c db (previous_item item p) a) (λ change ws h. h))
          (λ m. refl))

pub replace-GivesWay :
    (c : Config) (db : Db) (item : Item) (p : Option (ℕ × ℕ))
    → IsAscending db.gc
    → Holds (GivesWay db.gc) (replace c db item p)
unfolding replace
replace-GivesWay c db item none a = nothing-Shrinks db.gc a
replace-GivesWay c db item (some p) a = replaced-GivesWay c db item p a
