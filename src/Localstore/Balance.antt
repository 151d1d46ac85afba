-- ===== src/Localstore/Balance.antt =====
-- gcSize and the number of the chunks that are garbage (pkg/localstore/mode_put.go, pkg/localstore/gc.go).
use sana.Common.{
  ℕ, suc, ◌+◌, ◌<◌, ◌≡◌, refl, subst, true, false, Option, none, some, List, [], ◌∷◌, ◌++◌, length,
  inl, inr, ◌⊎◌, arith, Bool-cases, ltb, ◌==◌,
}
use sana.Common.Int.{ℤ, pos, negsuc, pos_part, neg_part, ◌+ℤ◌, int_laws}
use sana.Common.Word.{u64_mod}
use sana.Localstore.Keys.{GcKey, IsAscending}
use sana.Localstore.State.{
  Db, Write, write_batch, put_gc_size, Config, Result, failed, done, ◌>>=◌, changed, inc_gc_size,
  write_changed, address_to_item,
}
use sana.Localstore.Set.{note_dirty, set, set_one, set_remove, commit, and_tag, mode_set_remove}
use sana.Localstore.Put.{
  with_first, ModePut, mode_put_request, mode_put_request_pin, mode_put_request_cache, put_one, put,
  put_locked, already, finish, bin_id_writes,
}
use sana.Localstore.Chunks.{Placed, BinIds, Chunk, chunk_to_item}
use sana.Localstore.Counts.{append_nil, Neutral, Counts, Holds, Holds-map}
use sana.Localstore.Writes.{
  gc_all, size_all, gc_all-append, size_all-append, gc-write_batch, gc_size-write_batch,
}
use sana.Localstore.Placing.{Keeps, put_request-Keeps}
use sana.Localstore.Shrinking.{Shrinks, set_remove-Shrinks}

abbrev pub IsBalanced : Db → Type 0
IsBalanced db = IsAscending db.gc × (db.gc_size ≡ length db.gc)

-- The size that incGCSizeInBatch writes.
size_all-changed :
    (c : ℤ) (n m : ℕ)
    → m + neg_part c ≡ n + pos_part c
    → m < u64_mod
    → size_all (write_changed put_gc_size (changed c n)) n ≡ m
size_all-changed (pos c) n m h l = elim (Bool-cases (c == 0)) [
  | inl e ↦ rw e (let q : n ≡ m = ground arith in q)
  | inr k ↦ rw k (let e : m ≡ n + c = omega arith in rw (← e) (omega arith))
]
size_all-changed (negsuc c) n m h l = elim (Bool-cases (ltb n (suc c))) [
  | inl e ↦ ground arith
  | inr k ↦ rw k (omega arith)
]

pub bin_id_writes-Neutral : (ids : BinIds) → Neutral (bin_id_writes ids)
bin_id_writes-Neutral [] = (λ _. refl, λ _. refl)
bin_id_writes-Neutral (i ∷ ids) = bin_id_writes-Neutral ids

written-Neutral : (n : Option ℕ) (ks : List GcKey) → gc_all (write_changed put_gc_size n) ks ≡ ks
written-Neutral none ks = refl
written-Neutral (some n) ks = refl

-- The batch with what is written last.
pub IsBalanced-batch :
    (db : Db) (c : ℤ) (ws vs : List Write)
    → IsBalanced db
    → suc (length db.gc) < u64_mod
    → Counts db.gc c ws
    → Neutral vs
    → IsBalanced (write_batch (ws ++ vs ++ inc_gc_size db c) db)
IsBalanced-batch db c ws vs b l h n =
    let us = inc_gc_size db c in
    let e : gc_all (ws ++ vs ++ us) db.gc ≡ gc_all ws db.gc =
      rw (gc_all-append (ws ++ vs) us db.gc, gc_all-append ws vs db.gc, n.0 (gc_all ws db.gc))
        (written-Neutral (changed c db.gc_size) (gc_all ws db.gc)) in
    let s : size_all (ws ++ vs ++ us) db.gc_size ≡ length (gc_all ws db.gc) =
      rw
        (
          size_all-append (ws ++ vs) us db.gc_size,
          size_all-append ws vs db.gc_size,
          h.2 db.gc_size,
          n.1 db.gc_size,
        )
        (size_all-changed c db.gc_size (length (gc_all ws db.gc)) (rw b.1 h.1)
          (let q = h.1 in let r = h.3 in omega arith)) in
    (
      rw (gc-write_batch (ws ++ vs ++ us) db, e) h.0,
      rw (gc_size-write_batch (ws ++ vs ++ us) db, gc-write_batch (ws ++ vs ++ us) db, e) s,
    )

abbrev pub IsRequest : ModePut → Type 0
IsRequest m = (m ≡ mode_put_request) ⊎ (m ≡ mode_put_request_pin) ⊎ (m ≡ mode_put_request_cache)

-- The whole of a put of one chunk.
one-Keeps :
    (c : Config) (now : ℕ) (mode : ModePut) (ch : Chunk) (db : Db)
    → IsRequest mode
    → IsAscending db.gc
    → Holds (Keeps db.gc) (put_one c db now mode [] (chunk_to_item ch))
one-Keeps c now mode ch db (inl e) a =
    rw e (put_request-Keeps c db now [] (chunk_to_item ch) false false a)
one-Keeps c now mode ch db (inr (inl e)) a =
    rw e (put_request-Keeps c db now [] (chunk_to_item ch) true false a)
one-Keeps c now mode ch db (inr (inr e)) a =
    rw e (put_request-Keeps c db now [] (chunk_to_item ch) false true a)

add_zero : (a : ℤ) → a +ℤ pos 0 ≡ a
add_zero a = omega int_laws

finish-IsBalanced :
    (db : Db) (r : Result Placed)
    → IsBalanced db
    → suc (length db.gc) < u64_mod
    → Holds (Keeps db.gc) r
    → IsBalanced
        (finish db (
          r >>= (λ p.
            done ([], pos 0, p.ids) []
            >>= (λ rest. done (with_first p.exists p.change rest) [])))).1
finish-IsBalanced db (failed e) b l h = b
finish-IsBalanced db (done p ws) b l h =
    let z : p.change +ℤ pos 0 ≡ p.change = add_zero p.change in
    rw (z, append_nil ws)
      (IsBalanced-batch db p.change ws (bin_id_writes p.ids) b l h (bin_id_writes-Neutral p.ids))

pub note_dirty-gc : (addrs : List ℕ) (db : Db) → (note_dirty addrs db).gc ≡ db.gc
note_dirty-gc addrs db = elim (Bool-cases db.gc_running) [ inl e ↦ rw e refl | inr n ↦ rw n refl ]

pub note_dirty-IsBalanced :
    (addrs : List ℕ) (db : Db) → IsBalanced db → IsBalanced (note_dirty addrs db)
note_dirty-IsBalanced addrs db b = elim (Bool-cases db.gc_running) [
  | inl e ↦ rw e b
  | inr n ↦ rw n b
]

locked-IsBalanced :
    (c : Config) (now : ℕ) (mode : ModePut) (ch : Chunk) (db : Db)
    → IsRequest mode
    → IsBalanced db
    → suc (length db.gc) < u64_mod
    → IsBalanced (put_locked c now mode (ch ∷ []) db).1
locked-IsBalanced c now mode ch db m b l =
    let noted = note_dirty (ch.address ∷ []) db in
    let nb = note_dirty-IsBalanced (ch.address ∷ []) db b in
    finish-IsBalanced noted (put_one c noted now mode [] (chunk_to_item ch)) nb
      (rw (note_dirty-gc (ch.address ∷ []) db) l) (one-Keeps c now mode ch noted m nb.0)

-- A put of one chunk in a request mode keeps gcSize equal to the number of the chunks that are garbage,
-- whether it stores the chunk, replaces another one of the same stamp, or fails, when their number is
-- below the largest uint64 and the index is in order.
pub put-IsBalanced :
    (c : Config) (now : ℕ) (mode : ModePut) (ch : Chunk) (db : Db)
    → IsRequest mode
    → IsBalanced db
    → suc (length db.gc) < u64_mod
    → IsBalanced (put c now mode (ch ∷ []) db).1
unfolding put
put-IsBalanced c now mode ch db m b l = elim (Bool-cases (already mode (ch ∷ []) db)) [
  | inl e ↦ rw e b
  | inr n ↦ rw n (locked-IsBalanced c now mode ch db m b l)
]

set_one-Counts :
    (c : Config) (db : Db) (now a : ℕ)
    → IsAscending db.gc
    → Holds (λ r ws. Counts db.gc r.0 ws) (set_one c db now mode_set_remove a)
set_one-Counts c db now a h =
    Holds-map (Shrinks db.gc) (λ r ws. Counts db.gc r.0 ws)
      (set_remove c db true (address_to_item a)) (λ change. (change, none))
      (set_remove-Shrinks c db (address_to_item a) h) (λ change ws s. s.0)

abbrev pub none_left : Result (ℤ × List ℕ)
none_left = done (pos 0, []) []

commit-IsBalanced :
    (db : Db) (r : Result (ℤ × Option ℕ))
    → IsBalanced db
    → suc (length db.gc) < u64_mod
    → Holds (λ r ws. Counts db.gc r.0 ws) r
    → IsBalanced
        (commit db (r >>= (λ x. none_left >>= (λ y. done (x.0 +ℤ y.0, and_tag x.1 y.1) [])))).1
commit-IsBalanced db (failed e) b l h = b
commit-IsBalanced db (done x ws) b l h =
    rw (add_zero x.0, append_nil ws)
      (subst (λ vs. IsBalanced (write_batch (vs ++ inc_gc_size db x.0) db)) (append_nil ws)
        (IsBalanced-batch db x.0 ws [] b l h (λ _. refl, λ _. refl)))

-- Removing a chunk keeps gcSize equal to the number of the chunks that are garbage.
pub remove-IsBalanced :
    (c : Config) (now a : ℕ) (db : Db)
    → IsBalanced db
    → suc (length db.gc) < u64_mod
    → IsBalanced (set c now mode_set_remove (a ∷ []) db).1
unfolding set
remove-IsBalanced c now a db b l =
    let noted = note_dirty (a ∷ []) db in
    let nb = note_dirty-IsBalanced (a ∷ []) db b in
    commit-IsBalanced noted (set_one c noted now mode_set_remove a) nb
      (rw (note_dirty-gc (a ∷ []) db) l) (set_one-Counts c noted now a nb.0)
