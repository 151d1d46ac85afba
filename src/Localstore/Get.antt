-- ===== src/Localstore/Get.antt =====
-- get and updateGC (pkg/localstore/mode_get.go), which runs later under the lock. `now` is the time.
use sana.Common.{
  ℕ, ◌≡◌, refl, sym, subst, true, false, Option, none, some, List, [], ◌∷◌, ◌++◌, ◌⊎◌, inl, inr,
  arith, Bool-cases, ◌==◌, if◌then◌else◌,
}
use sana.Localstore.Keys.{
  GcKey, has_key, delete_key, same_key, same_key→≡, delete_absent, length-put_key,
  length-delete_key, put_key-IsAscending, delete_key-IsAscending, has_key-delete_other,
  has_key-delete_key,
}
use sana.Localstore.State.{
  Item, Stored, Db, Write, delete_gc, put_access, write, write_batch, Error, not_found, gc_key,
  put_garbage, merge_stored, address_to_item,
}
use sana.Localstore.Set.{note_dirty}
use sana.Localstore.Balance.{IsBalanced}

pub data ModeGet : Type 0 where
  mode_get_request : ModeGet
  mode_get_sync : ModeGet
  mode_get_lookup : ModeGet
  mode_get_pin : ModeGet

-- In the mode of pins the item is the one of the pin index, with no data.
abbrev pub get_pinned : ℕ → Option ℕ → Error ⊎ Item
get_pinned addr none = inl not_found
get_pinned addr (some n) = inr (address_to_item addr)

abbrev pub get_found : ModeGet → ℕ → Db → Option Stored → Error ⊎ Item
get_found mode addr db none = inl not_found
get_found mode_get_pin addr db (some v) = get_pinned addr (db.pin addr)
get_found mode_get_request addr db (some v) = inr (merge_stored v (address_to_item addr))
get_found mode_get_sync addr db (some v) = inr (merge_stored v (address_to_item addr))
get_found mode_get_lookup addr db (some v) = inr (merge_stored v (address_to_item addr))

-- get. In the mode of requests updateGC is called for the item later.
abbrev pub get : ModeGet → ℕ → Db → Error ⊎ Item
get mode addr db = get_found mode addr db (db.retrieval_data addr)

-- The item with the access timestamp of the index, if there is one.
abbrev pub last_access : Item → Option ℕ → Item
last_access item none = item
last_access item (some t) = record item { access_timestamp = t }

abbrev pub touched : Item → ℕ → Item
touched item now = record item { access_timestamp = now }

abbrev pub touch_writes : Db → ℕ → Item → List Write
touch_writes db now item =
    delete_gc (gc_key item)
    ∷ (if has_key (gc_key item) db.gc
        then put_garbage (touched item now) ∷ put_access item.address now ∷ []
        else put_access item.address now ∷ [])

abbrev pub touch : Db → ℕ → Item → Db
touch db now item =
    if item.access_timestamp == 0 then db else write_batch (touch_writes db now item) db

unfoldable pub update_gc : ℕ → Item → Db → Db
update_gc now item db =
    let noted = note_dirty (item.address ∷ []) db in
    touch noted now (last_access item (noted.retrieval_access item.address))

abbrev pub Fresh : Db → GcKey → GcKey → Type 0
Fresh db k j = (has_key j db.gc ≡ false) ⊎ (j ≡ k)

replaced_key_absent :
    (db : Db) (k j : GcKey) → IsBalanced db → Fresh db k j → has_key j (delete_key k db.gc) ≡ false
replaced_key_absent db k j b (inr e) = rw e (has_key-delete_key k db.gc b.0)
replaced_key_absent db k j b (inl n) = elim (Bool-cases (same_key j k)) [
  | inl e ↦ rw (same_key→≡ j k e) (has_key-delete_key k db.gc b.0)
  | inr m ↦ rw (has_key-delete_other j k db.gc m) n
]

touched-IsBalanced :
    (db : Db) (now : ℕ) (item : Item)
    → IsBalanced db
    → Fresh db (gc_key item) (gc_key (touched item now))
    → IsBalanced (write_batch (touch_writes db now item) db)
unfolding write
touched-IsBalanced db now item b f =
    let k = gc_key item in
    let j = gc_key (touched item now) in
    elim (Bool-cases (has_key k db.gc)) [
      | inl e ↦
          let a = delete_key-IsAscending k db.gc b.0 in
          let l = length-put_key j (delete_key k db.gc) a in
          let d = length-delete_key k db.gc e in
          let h = replaced_key_absent db k j b f in
          rw e (put_key-IsAscending j (delete_key k db.gc) a, (let q = b.1 in ground arith))
      | inr n ↦ rw (n, delete_absent k db.gc n) b
    ]

touch-IsBalanced :
    (db : Db) (now : ℕ) (item : Item)
    → IsBalanced db
    → Fresh db (gc_key item) (gc_key (touched item now))
    → IsBalanced (touch db now item)
touch-IsBalanced db now item b f = elim (Bool-cases (item.access_timestamp == 0)) [
  | inl e ↦ rw e b
  | inr n ↦ rw n (touched-IsBalanced db now item b f)
]

-- The key that updateGC deletes.
abbrev pub old_key : Db → Item → GcKey
old_key db item = gc_key (last_access item (db.retrieval_access item.address))

is_noted :
    (addrs : List ℕ) (db : Db)
    → db.gc_running ≡ true
    → note_dirty addrs db ≡ record db { dirty_addresses = db.dirty_addresses ++ addrs }
is_noted addrs db e = rw e refl

is_not_noted : (addrs : List ℕ) (db : Db) → db.gc_running ≡ false → note_dirty addrs db ≡ db
is_not_noted addrs db n = rw n refl

-- updateGC keeps gcSize equal to the number of the chunks that are garbage, if no other entry has the
-- key of the new time.
pub update_gc-IsBalanced :
    (now : ℕ) (item : Item) (db : Db)
    → IsBalanced db
    → (has_key (record (old_key db item) { access = now }) db.gc ≡ false)
      ⊎ (record (old_key db item) { access = now } ≡ old_key db item)
    → IsBalanced (update_gc now item db)
unfolding update_gc
update_gc-IsBalanced now item db b f =
    let known = last_access item (db.retrieval_access item.address) in
    let noted : Db = record db { dirty_addresses = db.dirty_addresses ++ item.address ∷ [] } in
    elim (Bool-cases db.gc_running) [
      | inl e ↦
          subst (λ d. IsBalanced (touch d now (last_access item (d.retrieval_access item.address))))
            (sym (is_noted (item.address ∷ []) db e)) (touch-IsBalanced noted now known b f)
      | inr n ↦
          subst (λ d. IsBalanced (touch d now (last_access item (d.retrieval_access item.address))))
            (sym (is_not_noted (item.address ∷ []) db n)) (touch-IsBalanced db now known b f)
    ]
