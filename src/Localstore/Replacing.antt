-- ===== src/Localstore/Replacing.antt =====
-- Two chunks of the same stamp (pkg/localstore/mode_put.go).
use sana.Common.{
  ℕ, suc, ◌≡◌, refl, sym, subst, true, false, none, some, List, [], ◌∷◌, ◌++◌, length, inl, inr,
  arith, Bool-cases, ltb,
}
use sana.Common.Int.{pos, ◌+ℤ◌}
use sana.Localstore.Keys.{GcKey, has_key, delete_key, length-delete_key}
use sana.Localstore.State.{
  or_else, Item, Stored, Db, Config, Write, err_overwrite, Result, failed, done, ◌>>=◌,
}
use sana.Localstore.Set.{set_remove, note_dirty}
use sana.Localstore.Put.{
  bin_id_writes, with_first, put_request, put_upload, put_sync, put_all, put_one, put, already,
  ModePut, mode_put_request, mode_put_request_pin, mode_put_request_cache, mode_put_upload,
  mode_put_upload_pin, mode_put_sync, finish,
}
use sana.Localstore.Chunks.{Placed, Chunk, chunk_to_item, replace}
use sana.Localstore.Counts.{append_nil}
use sana.Localstore.Writes.{
  gc_all, size_all, gc_all-append, size_all-append, gc-write_batch, gc_size-write_batch,
}
use sana.Localstore.Balance.{IsBalanced, bin_id_writes-Neutral}

put_one_refused :
    (c : Config) (db : Db) (now : ℕ) (mode : ModePut) (item : Item) (p : ℕ × ℕ)
    → db.retrieval_data item.address ≡ none
    → db.postage_index item.batch_id item.index ≡ some p
    → item.immutable ≡ true
    → put_one c db now mode [] item ≡ failed err_overwrite
unfolding put_request put_upload put_sync replace
put_one_refused c db now mode_put_request item p h g i = rw (h, g, i) refl
put_one_refused c db now mode_put_request_pin item p h g i = rw (h, g, i) refl
put_one_refused c db now mode_put_request_cache item p h g i = rw (h, g, i) refl
put_one_refused c db now mode_put_upload item p h g i = rw (h, g, i) refl
put_one_refused c db now mode_put_upload_pin item p h g i = rw (h, g, i) refl
put_one_refused c db now mode_put_sync item p h g i = rw (h, g, i) refl

note_dirty-reads :
    (addrs : List ℕ) (db : Db)
    → ((note_dirty addrs db).retrieval_data ≡ db.retrieval_data)
      × ((note_dirty addrs db).postage_index ≡ db.postage_index)
note_dirty-reads addrs db = elim (Bool-cases db.gc_running) [
  | inl e ↦ rw e (refl, refl)
  | inr n ↦ rw n (refl, refl)
]

already-none :
    (mode : ModePut) (ch : Chunk) (db : Db)
    → db.retrieval_data ch.address ≡ none
    → already mode (ch ∷ []) db ≡ false
already-none mode ch db h = rw h (ground arith)

-- In every mode a new chunk of an immutable batch is refused when its stamp is taken, and nothing is
-- written: at most its address is noted as dirty.
pub put_immutable :
    (c : Config) (now : ℕ) (mode : ModePut) (ch : Chunk) (db : Db) (p : ℕ × ℕ)
    → db.retrieval_data ch.address ≡ none
    → db.postage_index ch.batch_id ch.index ≡ some p
    → ch.immutable ≡ true
    → put c now mode (ch ∷ []) db ≡ (inl err_overwrite, note_dirty (ch.address ∷ []) db)
unfolding put
put_immutable c now mode ch db p h g i =
    let noted = note_dirty (ch.address ∷ []) db in
    let r = note_dirty-reads (ch.address ∷ []) db in
    let e : put_one c noted now mode [] (chunk_to_item ch) ≡ failed err_overwrite =
      put_one_refused c noted now mode (chunk_to_item ch) p (rw r.0 h) (rw r.1 g) i in
    rw (already-none mode ch db h, e) refl

-- The key under which the index of garbage has an earlier chunk.
abbrev pub replaced_key : Db → ℕ → Stored → GcKey
replaced_key db a v = record {
  access = elim (db.retrieval_access a) [ none ↦ 0 | some t ↦ t ];
  bin = or_else v.bin_id 0;
  address = a;
}

-- The step succeeds, and this holds of its value and writes.
abbrev pub Gives : {A : Type 0} → (A → List Write → Type 0) → Result A → Type 0
Gives P (failed e) = ⊥
Gives P (done a ws) = P a ws

-- A key goes, and nothing says so.
abbrev pub Forgets : Db → GcKey → Placed → List Write → Type 0
Forgets db k p ws =
    (p.change ≡ pos 0) × (gc_all ws db.gc ≡ delete_key k db.gc) × ((n : ℕ) → size_all ws n ≡ n)

upload_replaced :
    (c : Config) (now : ℕ) (ch : Chunk) (db : Db) (a t : ℕ) (v : Stored)
    → db.retrieval_data ch.address ≡ none
    → db.postage_index ch.batch_id ch.index ≡ some (a, t)
    → ch.immutable ≡ false
    → ltb t ch.timestamp ≡ true
    → db.retrieval_data a ≡ some v
    → has_key (replaced_key db a v) db.gc ≡ true
    → Gives (Forgets db (replaced_key db a v)) (put_upload c db now [] (chunk_to_item ch))
unfolding put_upload replace set_remove
upload_replaced c now ch db a t v h g i l d k = rw (h, g, i, l, d, k) (refl, refl, λ n. refl)

abbrev pub Forgotten : Db → Type 0
Forgotten db = db.gc_size ≡ suc (length db.gc)

not_noted : (ch : Chunk) (db : Db) → db.gc_running ≡ false → note_dirty (ch.address ∷ []) db ≡ db
not_noted ch db n = rw n refl

finish-Forgotten :
    (db : Db) (k : GcKey) (r : Result Placed)
    → db.gc_size ≡ length db.gc
    → has_key k db.gc ≡ true
    → Gives (Forgets db k) r
    → Forgotten
        (finish db (
          r >>= (λ p.
            done ([], pos 0, p.ids) []
            >>= (λ rest. done (with_first p.exists p.change rest) [])))).1
unfolding ◌+ℤ◌
finish-Forgotten db k (failed e) b h g = elim g [ ]
finish-Forgotten db k (done p ws) b h g =
    let ids = bin_id_writes p.ids in
    let n = bin_id_writes-Neutral p.ids in
    let l = length-delete_key k db.gc h in
    rw
      (
        g.0,
        append_nil ws,
        append_nil (ws ++ ids),
        gc_size-write_batch (ws ++ ids) db,
        gc-write_batch (ws ++ ids) db,
        gc_all-append ws ids db.gc,
        size_all-append ws ids db.gc_size,
        g.1,
        n.0 (delete_key k db.gc),
        g.2 db.gc_size,
        n.1 db.gc_size,
      )
      (omega arith)

-- A chunk that is uploaded in place of an earlier one of the same stamp, which is garbage, leaves
-- gcSize one above the number of the chunks that are garbage.
pub upload-Forgotten :
    (c : Config) (now : ℕ) (ch : Chunk) (db : Db) (a t : ℕ) (v : Stored)
    → IsBalanced db
    → db.retrieval_data ch.address ≡ none
    → db.postage_index ch.batch_id ch.index ≡ some (a, t)
    → ch.immutable ≡ false
    → ltb t ch.timestamp ≡ true
    → db.retrieval_data a ≡ some v
    → has_key (replaced_key db a v) db.gc ≡ true
    → db.gc_running ≡ false
    → Forgotten (put c now mode_put_upload (ch ∷ []) db).1
unfolding put
upload-Forgotten c now ch db a t v b h g i l d k n = rw (already-none mode_put_upload ch db h) (
    subst (λ x. Forgotten (finish x (put_all c x now mode_put_upload [] [] (ch ∷ []))).1)
      (sym (not_noted ch db n))
      (finish-Forgotten db (replaced_key db a v) (put_upload c db now [] (chunk_to_item ch)) b.1 k
        (upload_replaced c now ch db a t v h g i l d k)))
