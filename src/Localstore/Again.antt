-- ===== src/Localstore/Again.antt =====
-- What the next call sees of a chunk that was put (pkg/localstore/mode_put.go).
use sana.Common.{
  ℕ, ◌≡◌, refl, sym, subst, ◌∙◌, Bool, true, false, Option, none, some, List, [], ◌∷◌, ◌++◌, inl,
  inr, arith, Bool-cases, if◌then◌else◌,
}
use sana.Common.Int.{ℤ, pos, ◌+ℤ◌}
use sana.Localstore.State.{
  Item, Stored, Db, Config, Write, put_gc_size, Result, failed, done, ◌>>=◌, inc_gc_size,
  write_changed, changed,
}
use sana.Localstore.Set.{set_pin, is_some, note_dirty}
use sana.Localstore.Put.{
  Answer, not_placed, request_over, put_request, upload_over, put_upload, sync_over, put_sync,
  and_pin, put_one, put, already, is_pin_mode, ModePut, mode_put_request, mode_put_request_pin,
  mode_put_request_cache, mode_put_upload, mode_put_upload_pin, mode_put_sync, finish,
  bin_id_writes, with_first,
}
use sana.Localstore.Chunks.{BinIds, Placed, Chunk, chunk_to_item, replace}
use sana.Localstore.Counts.{append_nil, Holds, Holds-if, Holds-bind, Holds-map, Holds-mono}
use sana.Localstore.Kept.{
  data_all, data_all-append, data-write_batch, Leaves, Stores-after, set_pin-Leaves,
}
use sana.Localstore.Storing.{
  IsNewer, IsGiven, replace-IsGiven, is_some-true, Puts, request_over-Puts, upload_over-Puts,
  sync_over-Puts,
}

-- The data of the address are there after the writes.
abbrev pub Present : ℕ → Db → List Write → Type 0
Present a db ws = (v : Stored) × (data_all a ws (db.retrieval_data a) ≡ some v)

placed-Present :
    (c : Config) (db : Db) (item : Item) (ids : BinIds) (f : Option ℤ → Result Placed)
    → IsNewer item (db.postage_index item.batch_id item.index)
    → ((w : Option ℤ) (ws : List Write) → IsGiven w ws → Holds (Puts item.address) (f w))
    → Holds
        (λ p ws. Present item.address db ws)
        (if is_some (db.retrieval_data item.address)
          then not_placed true ids
          else replace c db item (db.postage_index item.batch_id item.index) >>= f)
placed-Present c db item ids f n h =
    Holds-if (λ p ws. Present item.address db ws) (is_some (db.retrieval_data item.address))
      (not_placed true ids) (replace c db item (db.postage_index item.batch_id item.index) >>= f)
      (λ e. is_some-true (db.retrieval_data item.address) e)
      (λ _.
        Holds-bind IsGiven (λ p ws. Present item.address db ws)
          (replace c db item (db.postage_index item.batch_id item.index)) f
          (replace-IsGiven c db item (db.postage_index item.batch_id item.index) n)
          (λ w ws g.
            Holds-mono (Puts item.address) (λ p vs. Present item.address db (ws ++ vs)) (f w)
              (λ p vs k.
                (k.0, Stores-after item.address k.0 ws vs k.1 (db.retrieval_data item.address)))
              (h w ws g)))

and_pin-Present :
    (db : Db) (item : Item) (r : Result Placed)
    → Holds (λ p ws. Present item.address db ws) r
    → Holds (λ p ws. Present item.address db ws) (r >>= and_pin db item)
and_pin-Present db item r h =
    Holds-bind (λ p ws. Present item.address db ws) (λ p ws. Present item.address db ws) r
      (and_pin db item) h
      (λ p ws k.
        Holds-map (λ _ vs. Leaves item.address vs) (λ _ vs. Present item.address db (ws ++ vs))
          (set_pin db item) (λ change. record p { change = p.change +ℤ change })
          (set_pin-Leaves item.address db item)
          (λ _ vs l. (
            k.0,
            data_all-append item.address ws vs (db.retrieval_data item.address)
                ∙ l (data_all item.address ws (db.retrieval_data item.address))
                ∙ k.1,
          )))

put_one-Present :
    (c : Config) (db : Db) (now : ℕ) (mode : ModePut) (item : Item)
    → IsNewer item (db.postage_index item.batch_id item.index)
    → Holds (λ p ws. Present item.address db ws) (put_one c db now mode [] item)
unfolding put_request put_upload put_sync
put_one-Present c db now mode_put_request item n =
    placed-Present c db item [] (request_over c db now [] item false false) n
      (request_over-Puts c db now [] item false false)
put_one-Present c db now mode_put_request_pin item n =
    placed-Present c db item [] (request_over c db now [] item true false) n
      (request_over-Puts c db now [] item true false)
put_one-Present c db now mode_put_request_cache item n =
    placed-Present c db item [] (request_over c db now [] item false true) n
      (request_over-Puts c db now [] item false true)
put_one-Present c db now mode_put_upload item n =
    placed-Present c db item [] (upload_over c db now [] item) n (upload_over-Puts c db now [] item)
put_one-Present c db now mode_put_upload_pin item n =
    and_pin-Present db item (put_upload c db now [] item) (
      placed-Present c db item [] (upload_over c db now [] item) n
        (upload_over-Puts c db now [] item))
put_one-Present c db now mode_put_sync item n =
    placed-Present c db item [] (sync_over c db now [] item) n (sync_over-Puts c db now [] item)

bin_id_writes-Leaves : (a : ℕ) (ids : BinIds) → Leaves a (bin_id_writes ids)
bin_id_writes-Leaves a [] x = refl
bin_id_writes-Leaves a (i ∷ ids) x = bin_id_writes-Leaves a ids x

size-Leaves : (a : ℕ) (n : Option ℕ) → Leaves a (write_changed put_gc_size n)
size-Leaves a none x = refl
size-Leaves a (some n) x = refl

-- What a call of put says of the answer and of the database.
abbrev pub HasStored : ℕ → Answer → Type 0
HasStored a (inl e, db) = Unit {0}
HasStored a (inr es, db) = is_some (db.retrieval_data a) ≡ true

finish-HasStored :
    (db : Db) (a : ℕ) (r : Result Placed)
    → Holds (λ p ws. Present a db ws) r
    → HasStored a (
        finish db (
          r >>= (λ p.
            done ([], pos 0, p.ids) [] >>= (λ rest. done (with_first p.exists p.change rest) []))))
finish-HasStored db a (failed e) h = tt
finish-HasStored db a (done p ws) h =
    let ids = bin_id_writes p.ids in
    let size = inc_gc_size db (p.change +ℤ pos 0) in
    let x = db.retrieval_data a in
    rw
      (
        append_nil ws,
        data-write_batch a (ws ++ ids ++ size) db,
        data_all-append a (ws ++ ids) size x,
        data_all-append a ws ids x,
        h.1,
        bin_id_writes-Leaves a p.ids (some h.0),
        size-Leaves a (changed (p.change +ℤ pos 0) db.gc_size) (some h.0),
      )
      refl

note_dirty-postage_index :
    (addrs : List ℕ) (db : Db) → (note_dirty addrs db).postage_index ≡ db.postage_index
note_dirty-postage_index addrs db = elim (Bool-cases db.gc_running) [
  | inl e ↦ rw e refl
  | inr n ↦ rw n refl
]

put-HasStored :
    (c : Config) (now : ℕ) (mode : ModePut) (ch : Chunk) (db : Db)
    → IsNewer (chunk_to_item ch) (db.postage_index ch.batch_id ch.index)
    → HasStored ch.address (put c now mode (ch ∷ []) db)
unfolding put
put-HasStored c now mode ch db h = elim (Bool-cases (already mode (ch ∷ []) db)) [
  | inl e ↦ rw e (let t : is_some (db.retrieval_data ch.address) ≡ true = ground arith in t)
  | inr n ↦
      let noted = note_dirty (ch.address ∷ []) db in
      rw n (
        finish-HasStored noted ch.address (put_one c noted now mode [] (chunk_to_item ch)) (
          put_one-Present c noted now mode (chunk_to_item ch) (
            subst (λ f. IsNewer (chunk_to_item ch) (f ch.batch_id ch.index))
              (sym (note_dirty-postage_index (ch.address ∷ []) db)) h)))
]

again-already :
    (again : ModePut) (ch : Chunk) (db : Db)
    → is_pin_mode again ≡ false
    → is_some (db.retrieval_data ch.address) ≡ true
    → already again (ch ∷ []) db ≡ true
again-already again ch db n e = rw (n, e) refl

-- A put that succeeds, when no chunk of the same stamp is as late or immutable, leaves a database in
-- which putting the chunk again, in a mode that does not pin, says that it exists and changes nothing.
pub put-put :
    (c : Config) (now next : ℕ) (mode again : ModePut) (ch : Chunk) (db : Db) (exist : List Bool)
    (after : Db)
    → IsNewer (chunk_to_item ch) (db.postage_index ch.batch_id ch.index)
    → put c now mode (ch ∷ []) db ≡ (inr exist, after)
    → is_pin_mode again ≡ false
    → put c next again (ch ∷ []) after ≡ (inr (true ∷ []), after)
unfolding put
put-put c now next mode again ch db exist after h e n =
    let stored : HasStored ch.address (inr exist, after) =
      subst (HasStored ch.address) e (put-HasStored c now mode ch db h) in
    rw (again-already again ch after n stored) refl
