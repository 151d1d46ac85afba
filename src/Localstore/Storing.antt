-- ===== src/Localstore/Storing.antt =====
-- The data in the batch of each mode of put (pkg/localstore/mode_put.go).
use sana.Common.{
  ℕ, ◌≡◌, refl, sym, ◌∙◌, Bool, true, false, Option, none, some, List, [], ◌∷◌, ◌++◌, arith, ltb,
  ◌==◌, if◌then◌else◌,
}
use sana.Common.Int.{ℤ, ◌+ℤ◌}
use sana.Localstore.State.{
  Item, Stored, Db, Config, Write, put_access, put_push, err_overwrite, Result, failed, done, ◌>>=◌,
  ◌>>◌, append, tell, pure, stored_of,
}
use sana.Localstore.Set.{set_remove, preserve_or_cache, is_some}
use sana.Localstore.Put.{leaving, request_new, request_over, upload_over, sync_over}
use sana.Localstore.Chunks.{
  BinIds, Placed, inc_bin_id, store_item, access_item, previous_item, data_write, pull_write,
  stamp_writes, replace,
}
use sana.Localstore.Counts.{Holds, Holds-if}
use sana.Localstore.Kept.{
  Leaves, Stores, Leaves-append, Leaves-if, Stores-before, Stores-after, preserve_or_cache-Leaves,
}

-- No chunk of the same stamp stands in the way of this one.
abbrev pub IsNewer : Item → Option (ℕ × ℕ) → Type 0
IsNewer item none = Unit {0}
IsNewer item (some (a, t)) = (item.immutable ≡ false) × (ltb t item.timestamp ≡ true)

abbrev pub IsGiven : Option ℤ → List Write → Type 0
IsGiven none ws = ⊥
IsGiven (some _) ws = Unit {0}

pub newer-IsGiven :
    (c : Config) (db : Db) (item : Item) (p : ℕ × ℕ)
    → item.immutable ≡ false
    → ltb p.1 item.timestamp ≡ true
    → Holds IsGiven (replace c db item (some p))
unfolding replace
newer-IsGiven c db item p i l =
    Holds-if IsGiven item.immutable (failed err_overwrite)
      (if ltb p.1 item.timestamp
        then set_remove c db true (previous_item item p) >>= (λ change. pure (some change))
        else pure none)
      (λ _. tt)
      (λ _.
        Holds-if IsGiven (ltb p.1 item.timestamp)
          (set_remove c db true (previous_item item p) >>= (λ change. pure (some change)))
          (pure none) (λ _. given (set_remove c db true (previous_item item p)))
          (λ n. let z : true ≡ false = sym l ∙ n in ground arith))
  where
    given : (r : Result ℤ) → Holds IsGiven (r >>= (λ change. pure (some change)))
    given (failed e) = tt
    given (done change ws) = tt

pub replace-IsGiven :
    (c : Config) (db : Db) (item : Item) (p : Option (ℕ × ℕ))
    → IsNewer item p
    → Holds IsGiven (replace c db item p)
unfolding replace
replace-IsGiven c db item none h = tt
replace-IsGiven c db item (some p) h = newer-IsGiven c db item p h.0 h.1

pub is_some-true : {A : Type 0} (x : Option A) → is_some x ≡ true → (v : A) × (x ≡ some v)
is_some-true none h = ground arith
is_some-true (some v) h = (v, refl)

pub eq_self : (a : ℕ) → a == a ≡ true
eq_self a = ground arith

-- The data are in the batch.
abbrev pub Puts : ℕ → Placed → List Write → Type 0
Puts a p ws = (v : Stored) × Stores a v ws

pub Puts-around :
    (a : ℕ) (v : Stored) (ws us vs : List Write) (r : Result ℤ) (f : ℤ → Placed)
    → Stores a v ws
    → Leaves a us
    → Leaves a vs
    → Holds (λ _ zs. Leaves a zs) r
    → Holds (Puts a) (append ws (append us (r >>= (λ d. tell vs >> pure (f d)))))
Puts-around a v ws us vs (failed e) f h g k l = tt
Puts-around a v ws us vs (done d rs) f h g k l = (
  v,
  Stores-before a v ws (us ++ (rs ++ (vs ++ []))) h (
      Leaves-append a us (rs ++ (vs ++ [])) g
        (Leaves-append a rs (vs ++ []) l (Leaves-append a vs [] k (λ x. refl)))),
)

pub stored-Stores :
    (item : Item) (ws : List Write)
    → Leaves item.address ws
    → Stores item.address (stored_of item) (data_write item ∷ ws)
stored-Stores item ws h x = rw (eq_self item.address) (h (some (stored_of item)))

pub request_new-Puts :
    (c : Config) (db : Db) (now : ℕ) (ids : BinIds) (item : Item) (force_pin force_cache : Bool)
    (change : ℤ)
    → Holds (Puts item.address) (request_new c db now ids item force_pin force_cache change)
unfolding request_new
request_new-Puts c db now ids item force_pin force_cache change =
    let taken = inc_bin_id db (c.po item.address) ids in
    let stored = store_item now taken.0 item in
    let known = access_item now stored in
    Puts-around item.address (stored_of stored) (data_write stored ∷ stamp_writes stored)
      (put_access item.address now ∷ []) (if force_cache then [] else pull_write c known ∷ [])
      (preserve_or_cache c db known force_pin force_cache)
      (λ d. record { exists = false; change = change +ℤ d; ids = taken.1 })
      (stored-Stores stored (stamp_writes stored) (λ x. refl)) (λ x. refl)
      (Leaves-if item.address force_cache [] (pull_write c known ∷ []) (λ x. refl) (λ x. refl))
      (preserve_or_cache-Leaves item.address c db known force_pin force_cache)

pub append-Puts :
    (a : ℕ) (ws : List Write) (r : Result Placed) → Holds (Puts a) r → Holds (Puts a) (append ws r)
append-Puts a ws (failed e) h = tt
append-Puts a ws (done p vs) h = (h.0, Stores-after a h.0 ws vs h.1)

pub request_over-Puts :
    (c : Config) (db : Db) (now : ℕ) (ids : BinIds) (item : Item) (force_pin force_cache : Bool)
    (w : Option ℤ) (ws : List Write)
    → IsGiven w ws
    → Holds (Puts item.address) (request_over c db now ids item force_pin force_cache w)
request_over-Puts c db now ids item force_pin force_cache none ws h = elim h [ ]
request_over-Puts c db now ids item force_pin force_cache (some change) ws h =
    append-Puts item.address (leaving c db item)
      (request_new c db now ids item force_pin force_cache change)
      (request_new-Puts c db now ids item force_pin force_cache change)

pub upload_over-Puts :
    (c : Config) (db : Db) (now : ℕ) (ids : BinIds) (item : Item) (w : Option ℤ) (ws : List Write)
    → IsGiven w ws
    → Holds (Puts item.address) (upload_over c db now ids item w)
upload_over-Puts c db now ids item none ws h = elim h [ ]
upload_over-Puts c db now ids item (some change) ws h =
    let stored = store_item now (inc_bin_id db (c.po item.address) ids).0 item in
    (
      stored_of stored,
      stored-Stores stored
          (pull_write c stored ∷ put_push now stored.address stored.tag ∷ stamp_writes stored)
          (λ x. refl),
    )

pub sync_over-Puts :
    (c : Config) (db : Db) (now : ℕ) (ids : BinIds) (item : Item) (w : Option ℤ) (ws : List Write)
    → IsGiven w ws
    → Holds (Puts item.address) (sync_over c db now ids item w)
sync_over-Puts c db now ids item none ws h = elim h [ ]
sync_over-Puts c db now ids item (some change) ws h =
    let taken = inc_bin_id db (c.po item.address) ids in
    let stored = store_item now taken.0 item in
    let known = access_item now stored in
    append-Puts item.address (leaving c db item)
      (do
        tell (data_write stored ∷ pull_write c stored ∷ stamp_writes stored)
        tell (put_access item.address now ∷ [])
        d ← preserve_or_cache c db known false false
        pure (record { exists = false; change = d; ids = taken.1 }))
      (Puts-around item.address (stored_of stored)
        (data_write stored ∷ pull_write c stored ∷ stamp_writes stored)
        (put_access item.address now ∷ []) [] (preserve_or_cache c db known false false)
        (λ d. record { exists = false; change = d; ids = taken.1 })
        (stored-Stores stored (pull_write c stored ∷ stamp_writes stored) (λ x. refl)) (λ x. refl)
        (λ x. refl) (preserve_or_cache-Leaves item.address c db known false false))
