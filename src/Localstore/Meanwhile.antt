-- ===== src/Localstore/Meanwhile.antt =====
-- Chunks that are removed while garbage is collected (pkg/localstore/gc.go, pkg/localstore/mode_set.go).
use sana.Common.{
  ℕ, suc, ◌<◌, ◌≡◌, refl, sym, subst, ◌∙◌, true, Option, none, some, List, [], ◌∷◌, ◌++◌, length,
  inl, inr, arith, Bool-cases, leb,
}
use sana.Common.Int.{ℤ, pos, ◌+ℤ◌}
use sana.Common.Word.{u64_mod}
use sana.Localstore.Keys.{GcKey, same_key_refl, IsAscending, has_key}
use sana.Localstore.State.{
  Db, Config, Write, put_gc_size, write_batch, Result, failed, done, ◌>>=◌, inc_gc_size,
  put_gc_size, write_changed, changed, address_to_item,
}
use sana.Localstore.Set.{
  set, set_one, set_all, set_remove, commit, and_tag, mode_set_remove, note_dirty,
}
use sana.Localstore.Collect.{
  gc_batch_size, sub64, Candidate, select, start_collecting, collect_garbage,
}
use sana.Localstore.Counts.{append_nil, Holds, Holds-map, Holds-both}
use sana.Localstore.Writes.{gc_all, gc-write_batch, gc_all-append}
use sana.Localstore.Shrinking.{Shrinks, set_remove-Shrinks}
use sana.Localstore.Balance.{IsBalanced, remove-IsBalanced, none_left}
use sana.Localstore.Garbage.{collect_garbage-IsBalanced}
use sana.Localstore.Collected.{AreGarbage}
use sana.Localstore.Others.{
  kept-write_batch, KeepsOthers, set_remove-KeepsOthers, removed-AreGarbage,
}

-- The state while garbage is collected.
abbrev pub Ready : List Candidate → Db → Type 0
Ready ks db =
    (db.gc_running ≡ true)
    × IsBalanced db
    × (suc (length db.gc) < u64_mod)
    × AreGarbage db.dirty_addresses ks db.gc

-- What a removal adds to the batch.
abbrev pub Removes : ℕ → List GcKey → ℤ × Option ℕ → List Write → Type 0
Removes a gc x ws = Shrinks gc x.0 ws × KeepsOthers a gc ws

removed_batch :
    (db : Db) (x : ℤ × Option ℕ) (ws vs : List Write) (a : ℕ) (dirty : List ℕ) (ks : List Candidate)
    → db.gc_running ≡ true
    → db.dirty_addresses ≡ dirty ++ a ∷ []
    → suc (length db.gc) < u64_mod
    → AreGarbage dirty ks db.gc
    → Removes a db.gc x ws
    → ((gc : List GcKey) → gc_all vs gc ≡ gc)
    → IsBalanced (write_batch (ws ++ vs) db)
    → Ready ks (write_batch (ws ++ vs) db)
removed_batch db x ws vs a dirty ks r d l g h n b =
    let e : (write_batch (ws ++ vs) db).gc ≡ gc_all ws db.gc =
      rw (gc-write_batch (ws ++ vs) db, gc_all-append ws vs db.gc, n (gc_all ws db.gc)) refl in
    let k = kept-write_batch (ws ++ vs) db in
    (
      k.0 ∙ r,
      b,
      rw e (let q = h.0.0.1 in let z = h.0.2 in omega arith),
      rw (k.1 ∙ d, e) (removed-AreGarbage dirty a ks db.gc (gc_all ws db.gc) h.1 g),
    )

size-gc : (n : Option ℕ) (gc : List GcKey) → gc_all (write_changed put_gc_size n) gc ≡ gc
size-gc none gc = refl
size-gc (some n) gc = refl

commit-Ready :
    (db : Db) (r : Result (ℤ × Option ℕ)) (a : ℕ) (dirty : List ℕ) (ks : List Candidate)
    → db.gc_running ≡ true
    → db.dirty_addresses ≡ dirty ++ a ∷ []
    → suc (length db.gc) < u64_mod
    → AreGarbage dirty ks db.gc
    → Holds (Removes a db.gc) r
    → IsBalanced
        (commit db (r >>= (λ x. none_left >>= (λ y. done (x.0 +ℤ y.0, and_tag x.1 y.1) [])))).1
    → Ready ks
        (commit db (r >>= (λ x. none_left >>= (λ y. done (x.0 +ℤ y.0, and_tag x.1 y.1) [])))).1
commit-Ready db (failed e) a dirty ks r d l g h b =
    (r, b, l, rw d (removed-AreGarbage dirty a ks db.gc db.gc (λ k n. refl) g))
commit-Ready db (done x ws) a dirty ks r d l g h b =
    removed_batch db x (ws ++ []) (inc_gc_size db (x.0 +ℤ pos 0)) a dirty ks r d l g
      (rw (append_nil ws) h) (size-gc (changed (x.0 +ℤ pos 0) db.gc_size)) b

set_one-Removes :
    (c : Config) (db : Db) (now a : ℕ)
    → IsAscending db.gc
    → Holds (Removes a db.gc) (set_one c db now mode_set_remove a)
set_one-Removes c db now a h =
    Holds-map (λ change ws. Shrinks db.gc change ws × KeepsOthers a db.gc ws) (Removes a db.gc)
      (set_remove c db true (address_to_item a)) (λ change. (change, none))
      (Holds-both (Shrinks db.gc) (λ _ ws. KeepsOthers a db.gc ws)
        (set_remove c db true (address_to_item a)) (set_remove-Shrinks c db (address_to_item a) h)
        (set_remove-KeepsOthers c db (address_to_item a)))
      (λ change ws s. s)

pub remove-Ready :
    (c : Config) (now a : ℕ) (ks : List Candidate) (db : Db)
    → Ready ks db
    → Ready ks (set c now mode_set_remove (a ∷ []) db).1
unfolding set
remove-Ready c now a ks db h =
    let noted : Db = record db { dirty_addresses = db.dirty_addresses ++ a ∷ [] } in
    let e : note_dirty (a ∷ []) db ≡ noted = rw h.0 refl in
    let b : IsBalanced (commit noted (set_all c noted now mode_set_remove (a ∷ []))).1 =
      subst (λ n. IsBalanced (commit n (set_all c n now mode_set_remove (a ∷ []))).1) e
        (remove-IsBalanced c now a db h.1 h.2) in
    subst (λ n. Ready ks (commit n (set_all c n now mode_set_remove (a ∷ []))).1) (sym e)
      (commit-Ready noted (set_one c noted now mode_set_remove a) a db.dirty_addresses ks h.0 refl
        h.2 h.3 (set_one-Removes c noted now a h.1.0) b)

-- Chunks are removed one after the other.
abbrev pub removes : Config → ℕ → List ℕ → Db → Db
removes c now [] db = db
removes c now (a ∷ addrs) db = removes c now addrs (set c now mode_set_remove (a ∷ []) db).1

removes-Ready :
    (c : Config) (now : ℕ) (addrs : List ℕ) (ks : List Candidate) (db : Db)
    → Ready ks db
    → Ready ks (removes c now addrs db)
removes-Ready c now [] ks db h = h
removes-Ready c now (a ∷ addrs) ks db h =
    removes-Ready c now addrs ks (set c now mode_set_remove (a ∷ []) db).1
      (remove-Ready c now a ks db h)

first_key : (k : GcKey) (ks : List GcKey) → has_key k (k ∷ ks) ≡ true
unfolding has_key
first_key k ks = rw (same_key_refl k) refl

later_key : (k j : GcKey) (ks : List GcKey) → has_key j ks ≡ true → has_key j (k ∷ ks) ≡ true
unfolding has_key
later_key k j ks h = ground arith

pub selected-AreGarbage :
    (db : Db) (dirty : List ℕ) (target n : ℕ) (ks gc : List GcKey)
    → ((k : GcKey) → has_key k ks ≡ true → has_key k gc ≡ true)
    → AreGarbage dirty (select db target n ks) gc
unfolding select
selected-AreGarbage db dirty target n [] gc h = tt
selected-AreGarbage db dirty target n (k ∷ ks) gc h =
    let ih = selected-AreGarbage db dirty target (suc n) ks gc (λ j m. h j (later_key k j ks m)) in
    let here = h k (first_key k ks) in
    elim (Bool-cases (leb (sub64 db.gc_size n) target)) [
      | inl e ↦ rw e tt
      | inr f ↦ rw f (elim (Bool-cases (leb gc_batch_size (suc n))) [
        | inl e ↦ rw e (λ _. here, tt)
        | inr g ↦ rw g (λ _. here, ih)
      ])
    ]

-- When gcSize is the number of the chunks that are garbage, at most 2^64 - 2, and the index is in order,
-- then so it is after a run of collectGarbage during which any chunks are removed one after the other,
-- candidates or not.
pub collect_garbage-removes :
    (c : Config) (now target : ℕ) (addrs : List ℕ) (db : Db)
    → IsBalanced db
    → suc (length db.gc) < u64_mod
    → IsBalanced (collect_garbage c target (removes c now addrs) db).1
collect_garbage-removes c now target addrs db b l =
    let started = start_collecting db in
    let r = removes-Ready c now addrs (select started target 0 db.gc) started (
      refl,
      b,
      l,
      selected-AreGarbage started db.dirty_addresses target 0 db.gc db.gc (λ k h. h),
    ) in
    collect_garbage-IsBalanced c target (removes c now addrs) db b (omega arith) r.1
      (let q = r.2 in omega arith) r.3
