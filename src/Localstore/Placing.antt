-- ===== src/Localstore/Placing.antt =====
-- The garbage after the steps of Put (pkg/localstore/mode_put.go).
use sana.Common.{
  ℕ, ◌≡◌, refl, Bool, true, false, Option, none, some, List, [], ◌∷◌, ◌++◌, arith, leb,
  if◌then◌else◌, not, ◌&&◌, ◌||◌,
}
use sana.Common.Int.{ℤ, pos, negsuc, ◌+ℤ◌}
use sana.Localstore.Keys.{GcKey, has_key, IsAscending, put_key-IsAscending, length-put_key}
use sana.Localstore.State.{
  Item, Db, Write, Config, Result, failed, done, append, ◌>>=◌, pure, tell, inc_reserve_size,
  write_changed, put_access, ◌>>◌, put_reserve_size, changed, gc_key, put_garbage,
}
use sana.Localstore.Set.{set_pin, pin_again, first_pin, preserve_or_cache, within_radius, is_some}
use sana.Localstore.Put.{put_request, request_over, not_placed, leaving, is_replacing, request_new}
use sana.Localstore.Chunks.{
  data_write, stamp_writes, pull_write, leave_reserve, Placed, BinIds, inc_bin_id, store_item,
  access_item, replace,
}
use sana.Localstore.Counts.{
  Neutral, Counts, Holds, Holds-bind, Holds-if, Holds-mono, Counts-append, Neutral-append,
  Neutral-before, Neutral-after, Holds-append-Neutral,
}
use sana.Localstore.Writes.{gc_all}
use sana.Localstore.Shrinking.{GivesWay, replace-GivesWay}

-- A chunk that is not stored is pinned without a change, or not at all.
set_pin-absent :
    (db : Db) (item : Item) (ks : List GcKey)
    → db.retrieval_data item.address ≡ none
    → IsAscending ks
    → Holds (Counts ks) (set_pin db item)
unfolding set_pin
set_pin-absent db item ks h a = pinned (db.pin item.address)
  where
    first : (t : Option ℕ) → Holds (Counts ks) (first_pin db item t)
    first none = (a, refl, λ n. refl, omega arith)
    first (some t) = rw h tt

    pinned : (p : Option ℕ) → Holds (Counts ks) (pin_again db item p)
    pinned none = first (db.retrieval_access item.address)
    pinned (some n) = (a, refl, λ m. refl, omega arith)

inc_reserve_size-Neutral : (db : Db) (change : ℤ) → Neutral (inc_reserve_size db change)
inc_reserve_size-Neutral db change = written (changed change db.reserve_size)
  where
    written : (n : Option ℕ) → Neutral (write_changed put_reserve_size n)
    written none = (λ ks. refl, λ n. refl)
    written (some n) = (λ ks. refl, λ n. refl)

nothing-Neutral : Neutral []
nothing-Neutral = (λ ks. refl, λ n. refl)

pub Neutral-if :
    (b : Bool) (ws vs : List Write) → Neutral ws → Neutral vs → Neutral (if b then ws else vs)
Neutral-if true ws vs n m = n
Neutral-if false ws vs n m = m

-- A new key.
cached-Counts :
    (item : Item) (ks : List GcKey)
    → IsAscending ks
    → has_key (gc_key item) ks ≡ false
    → Counts ks (pos 1) (put_garbage item ∷ [])
cached-Counts item ks a h = (
  put_key-IsAscending (gc_key item) ks a,
  (let l = length-put_key (gc_key item) ks a in ground arith),
  λ n. refl,
  omega arith,
)

pub preserve_or_cache-Counts :
    (c : Config) (db : Db) (item : Item) (force_pin force_cache : Bool) (ks : List GcKey)
    → db.retrieval_data item.address ≡ none
    → IsAscending ks
    → (has_key (gc_key item) db.gc ≡ false → has_key (gc_key item) ks ≡ false)
    → Holds (Counts ks) (preserve_or_cache c db item force_pin force_cache)
unfolding preserve_or_cache
preserve_or_cache-Counts c db item force_pin force_cache ks h a sub =
    let reserve = if force_pin then [] else inc_reserve_size db (pos 1) in
    let cached : Result ℤ = done (pos 1) (put_garbage item ∷ []) in
    let is_there = is_some (db.pin item.address) || has_key (gc_key item) db.gc in
    Holds-if (Counts ks) (not force_cache && (within_radius c item || force_pin))
      (append reserve (set_pin db item)) (if is_there then pure (pos 0) else cached)
      (λ _.
        Holds-append-Neutral ks reserve (set_pin db item)
          (Neutral-if force_pin [] (inc_reserve_size db (pos 1)) nothing-Neutral
            (inc_reserve_size-Neutral db (pos 1)))
          (set_pin-absent db item ks h a))
      (λ _.
        Holds-if (Counts ks) is_there (pure (pos 0)) cached (λ _. (a, refl, λ n. refl, omega arith))
          (λ n. cached-Counts item ks a (sub (ground arith))))

-- The change that the step gives is the earlier one and its own.
abbrev pub Adds : ℤ → List GcKey → Placed → List Write → Type 0
Adds change ks p ws = (d : ℤ) × (p.change ≡ change +ℤ d) × Counts ks d ws

Adds-around :
    (change : ℤ) (ks : List GcKey) (ws us vs : List Write) (r : Result ℤ) (ids : BinIds)
    → Neutral ws
    → Neutral us
    → Neutral vs
    → Holds (Counts ks) r
    → Holds (Adds change ks) (
        append ws (
          append us (
            r >>= (λ d.
              tell vs >> pure (record { exists = false; change = change +ℤ d; ids = ids })))))
Adds-around change ks ws us vs (failed e) ids n m k h = tt
Adds-around change ks ws us vs (done d rs) ids n m k h = (
  d,
  refl,
  Neutral-before ks d ws (us ++ (rs ++ (vs ++ []))) n (
      Neutral-before ks d us (rs ++ (vs ++ [])) m
        (Neutral-after ks d rs (vs ++ []) h (Neutral-append vs [] k nothing-Neutral))),
)

pub request_new-Adds :
    (c : Config) (db : Db) (now : ℕ) (ids : BinIds) (item : Item) (force_pin force_cache : Bool)
    (change : ℤ) (ks : List GcKey)
    → db.retrieval_data item.address ≡ none
    → IsAscending ks
    → ((k : GcKey) → has_key k db.gc ≡ false → has_key k ks ≡ false)
    → Holds (Adds change ks) (request_new c db now ids item force_pin force_cache change)
unfolding request_new
request_new-Adds c db now ids item force_pin force_cache change ks h a sub =
    let taken = inc_bin_id db (c.po item.address) ids in
    let stored = store_item now taken.0 item in
    let known = access_item now stored in
    Adds-around change ks (data_write stored ∷ stamp_writes stored)
      (put_access item.address now ∷ []) (if force_cache then [] else pull_write c known ∷ [])
      (preserve_or_cache c db known force_pin force_cache) taken.1 (λ _. refl, λ _. refl)
      (λ _. refl, λ _. refl)
      (Neutral-if force_cache [] (pull_write c known ∷ []) nothing-Neutral (λ _. refl, λ _. refl))
      (preserve_or_cache-Counts c db known force_pin force_cache ks h a (sub (gc_key known)))

-- Every step of put keeps the count of the garbage.
abbrev pub Keeps : List GcKey → Placed → List Write → Type 0
Keeps ks p ws = Counts ks p.change ws

leaving-Neutral : (c : Config) (db : Db) (item : Item) → Neutral (leaving c db item)
leaving-Neutral c db item =
    Neutral-if (is_replacing db item) (leave_reserve c db item (db.postage_radius item.batch_id)) []
      (left (db.postage_radius item.batch_id)) nothing-Neutral
  where
    left : (r : Option ℕ) → Neutral (leave_reserve c db item r)
    left none = nothing-Neutral
    left (some radius) =
        Neutral-if (leb radius (c.po item.address)) (inc_reserve_size db (negsuc 0)) []
          (inc_reserve_size-Neutral db (negsuc 0)) nothing-Neutral

request_over-Keeps :
    (c : Config) (db : Db) (now : ℕ) (ids : BinIds) (item : Item) (force_pin force_cache : Bool)
    (w : Option ℤ) (ws : List Write)
    → db.retrieval_data item.address ≡ none
    → IsAscending db.gc
    → GivesWay db.gc w ws
    → Holds
        (λ p vs. Keeps db.gc p (ws ++ vs))
        (request_over c db now ids item force_pin force_cache w)
request_over-Keeps c db now ids item force_pin force_cache none ws h a g =
    rw g (a, refl, λ n. refl, omega arith)
request_over-Keeps c db now ids item force_pin force_cache (some change) ws h a g =
    Holds-bind (λ _ vs. Neutral vs) (λ p vs. Keeps db.gc p (ws ++ vs)) (tell (leaving c db item))
      (λ _. request_new c db now ids item force_pin force_cache change) (leaving-Neutral c db item)
      (λ _ us n.
        Holds-mono (Adds change (gc_all ws db.gc)) (λ p vs. Keeps db.gc p (ws ++ (us ++ vs)))
          (request_new c db now ids item force_pin force_cache change)
          (λ p vs k. rw k.1 (
            Counts-append db.gc change k.0 ws (us ++ vs) g.0 g.2
              (Neutral-before (gc_all ws db.gc) k.0 us vs n k.2)))
          (request_new-Adds c db now ids item force_pin force_cache change (gc_all ws db.gc) h g.0.0
            g.1))

is_some-false : {A : Type 0} (x : Option A) → is_some x ≡ false → x ≡ none
is_some-false none h = refl
is_some-false (some a) h = ground arith

pub put_request-Keeps :
    (c : Config) (db : Db) (now : ℕ) (ids : BinIds) (item : Item) (force_pin force_cache : Bool)
    → IsAscending db.gc
    → Holds (Keeps db.gc) (put_request c db now ids item force_pin force_cache)
unfolding put_request
put_request-Keeps c db now ids item force_pin force_cache a =
    Holds-if (Keeps db.gc) (is_some (db.retrieval_data item.address)) (not_placed true ids)
      (replace c db item (db.postage_index item.batch_id item.index)
        >>= request_over c db now ids item force_pin force_cache)
      (λ _. (a, refl, λ n. refl, omega arith))
      (λ e.
        Holds-bind (GivesWay db.gc) (Keeps db.gc)
          (replace c db item (db.postage_index item.batch_id item.index))
          (request_over c db now ids item force_pin force_cache)
          (replace-GivesWay c db item (db.postage_index item.batch_id item.index) a)
          (λ w ws g.
            request_over-Keeps c db now ids item force_pin force_cache w ws
              (is_some-false (db.retrieval_data item.address) e) a g))
