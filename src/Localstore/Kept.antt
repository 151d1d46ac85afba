-- ===== src/Localstore/Kept.antt =====
-- What the database has of a chunk that was put (pkg/localstore/mode_put.go).
use sana.Common.{
  ℕ, ◌≡◌, refl, Bool, true, false, not, ◌&&◌, ◌||◌, Option, none, some, List, [], ◌∷◌, ◌++◌, ◌==◌,
  if◌then◌else◌,
}
use sana.Common.Int.{ℤ, pos, negsuc}
use sana.Localstore.Keys.{has_key}
use sana.Localstore.State.{
  Item, Stored, Db, Config, Write, put_data, delete_data, put_access, delete_access, put_pull,
  delete_pull, put_push, delete_push, put_gc, delete_gc, put_pin, delete_pin, put_postage_chunk,
  delete_postage_chunk, put_radius, delete_radius, put_postage_index, delete_postage_index,
  put_bin_id, put_gc_size, put_reserve_size, write, write_batch, Result, failed, done, ◌>>=◌,
  append, pure, found, inc_reserve_size, write_changed, changed, gc_key, put_garbage, merge_stored,
}
use sana.Localstore.Set.{set_pin, pin_again, first_pin, preserve_or_cache, within_radius, is_some}
use sana.Localstore.Counts.{Holds, Holds-if}

-- The data of an address after a write.
abbrev pub data_step : ℕ → Write → Option Stored → Option Stored
data_step a (put_data b v) x = if b == a then some v else x
data_step a (delete_data b) x = if b == a then none else x
data_step a _ x = x

abbrev pub data_all : ℕ → List Write → Option Stored → Option Stored
data_all a [] x = x
data_all a (w ∷ ws) x = data_all a ws (data_step a w x)

pub data_all-append :
    (a : ℕ) (ws vs : List Write) (x : Option Stored)
    → data_all a (ws ++ vs) x ≡ data_all a vs (data_all a ws x)
data_all-append a [] vs x = refl
data_all-append a (w ∷ ws) vs x = data_all-append a ws vs (data_step a w x)

data-write :
    (a : ℕ) (w : Write) (db : Db)
    → (write w db).retrieval_data a ≡ data_step a w (db.retrieval_data a)
unfolding write
data-write a (put_data _ _) db = refl
data-write a (delete_data _) db = refl
data-write a (put_access _ _) db = refl
data-write a (delete_access _) db = refl
data-write a (put_pull _ _ _) db = refl
data-write a (delete_pull _ _) db = refl
data-write a (put_push _ _ _) db = refl
data-write a (delete_push _ _) db = refl
data-write a (put_gc _ _ _) db = refl
data-write a (delete_gc _) db = refl
data-write a (put_pin _ _) db = refl
data-write a (delete_pin _) db = refl
data-write a (put_postage_chunk _ _) db = refl
data-write a (delete_postage_chunk _ _) db = refl
data-write a (put_radius _ _) db = refl
data-write a (delete_radius _) db = refl
data-write a (put_postage_index _ _ _ _) db = refl
data-write a (delete_postage_index _ _) db = refl
data-write a (put_bin_id _ _) db = refl
data-write a (put_gc_size _) db = refl
data-write a (put_reserve_size _) db = refl

pub data-write_batch :
    (a : ℕ) (ws : List Write) (db : Db)
    → (write_batch ws db).retrieval_data a ≡ data_all a ws (db.retrieval_data a)
data-write_batch a [] db = refl
data-write_batch a (w ∷ ws) db = rw (data-write_batch a ws (write w db), data-write a w db) refl

-- The writes leave the data as it is, or put data whatever there was.
abbrev pub Leaves : ℕ → List Write → Type 0
Leaves a ws = (x : Option Stored) → data_all a ws x ≡ x

abbrev pub Stores : ℕ → Stored → List Write → Type 0
Stores a v ws = (x : Option Stored) → data_all a ws x ≡ some v

pub Leaves-append : (a : ℕ) (ws vs : List Write) → Leaves a ws → Leaves a vs → Leaves a (ws ++ vs)
Leaves-append a ws vs h g x = rw (data_all-append a ws vs x, h x) (g x)

pub Stores-before :
    (a : ℕ) (v : Stored) (ws vs : List Write) → Stores a v ws → Leaves a vs → Stores a v (ws ++ vs)
Stores-before a v ws vs h g x = rw (data_all-append a ws vs x, h x) (g (some v))

pub Stores-after : (a : ℕ) (v : Stored) (ws vs : List Write) → Stores a v vs → Stores a v (ws ++ vs)
Stores-after a v ws vs h x = rw (data_all-append a ws vs x) (h (data_all a ws x))

pub Leaves-if :
    (a : ℕ) (b : Bool) (ws vs : List Write)
    → Leaves a ws
    → Leaves a vs
    → Leaves a (if b then ws else vs)
Leaves-if a true ws vs h g = h
Leaves-if a false ws vs h g = g

pub written-Leaves : (a : ℕ) (n : Option ℕ) → Leaves a (write_changed put_reserve_size n)
written-Leaves a none x = refl
written-Leaves a (some n) x = refl

pub set_pin-Leaves : (a : ℕ) (db : Db) (item : Item) → Holds (λ _ ws. Leaves a ws) (set_pin db item)
unfolding set_pin
set_pin-Leaves a db item = pinned (db.pin item.address)
  where
    keyed :
        (t : ℕ) (v : Option Stored)
        → Holds
            (λ _ ws. Leaves a ws)
            ((found v >>= (λ w. pure (record {
              access = t;
              bin = (merge_stored w item).bin_id;
              address = item.address;
            })))
              >>= (λ key. done (negsuc 0) (delete_gc key ∷ put_pin item.address 1 ∷ [])))
    keyed t none = tt
    keyed t (some v) = λ x. refl

    first : (t : Option ℕ) → Holds (λ _ ws. Leaves a ws) (first_pin db item t)
    first none = λ x. refl
    first (some t) = keyed t (db.retrieval_data item.address)

    pinned : (p : Option ℕ) → Holds (λ _ ws. Leaves a ws) (pin_again db item p)
    pinned none = first (db.retrieval_access item.address)
    pinned (some n) = λ x. refl

append-Leaves :
    {A : Type 0} (a : ℕ) (ws : List Write) (r : Result A)
    → Leaves a ws
    → Holds (λ _ vs. Leaves a vs) r
    → Holds (λ _ vs. Leaves a vs) (append ws r)
append-Leaves a ws (failed e) h g = tt
append-Leaves a ws (done b vs) h g = Leaves-append a ws vs h g

pub preserve_or_cache-Leaves :
    (a : ℕ) (c : Config) (db : Db) (item : Item) (force_pin force_cache : Bool)
    → Holds (λ _ ws. Leaves a ws) (preserve_or_cache c db item force_pin force_cache)
unfolding preserve_or_cache
preserve_or_cache-Leaves a c db item force_pin force_cache =
    let reserve = if force_pin then [] else inc_reserve_size db (pos 1) in
    let cached : Result ℤ = done (pos 1) (put_garbage item ∷ []) in
    let is_there = is_some (db.pin item.address) || has_key (gc_key item) db.gc in
    Holds-if (λ _ ws. Leaves a ws) (not force_cache && (within_radius c item || force_pin))
      (append reserve (set_pin db item)) (if is_there then pure (pos 0) else cached)
      (λ _.
        append-Leaves a reserve (set_pin db item)
          (Leaves-if a force_pin [] (inc_reserve_size db (pos 1)) (λ x. refl)
            (written-Leaves a (changed (pos 1) db.reserve_size)))
          (set_pin-Leaves a db item))
      (λ _.
        Holds-if (λ _ ws. Leaves a ws) is_there (pure (pos 0)) cached (λ _ x. refl) (λ _ x. refl))
