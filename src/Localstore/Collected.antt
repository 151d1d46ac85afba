-- ===== src/Localstore/Collected.antt =====
-- The garbage and its count after the second step of collectGarbage (pkg/localstore/gc.go).
use sana.Common.{
  ℕ, ◌+◌, ◌-◌, ◌<◌, ◌≤◌, ◌≡◌, refl, true, false, List, [], ◌∷◌, ◌++◌, map, length, inl, inr, arith,
  Bool-cases,
}
use sana.Common.Word.{u64_mod}
use sana.Localstore.Keys.{
  GcKey, IsAscending, has_key, delete_key, Above, after_not_same, delete_key-IsAscending,
  length-delete_key, has_key-delete_other,
}
use sana.Localstore.State.{Db, Config, Write, write_batch, put_gc_size}
use sana.Localstore.Collect.{sub64, Candidate, member_of, weed, removals, collect}
use sana.Localstore.Writes.{
  gc_all, size_all-append, gc_all-append, gc-write_batch, gc_size-write_batch,
}
use sana.Localstore.Balance.{IsBalanced}

abbrev pub keys : List Candidate → List GcKey
keys ks = map (λ k. k.key) ks

-- Every candidate that is not dirty is garbage.
abbrev pub AreGarbage : List ℕ → List Candidate → List GcKey → Type 0
AreGarbage dirty [] gc = Unit {0}
AreGarbage dirty (k ∷ ks) gc =
    (member_of k.key.address dirty ≡ false → has_key k.key gc ≡ true) × AreGarbage dirty ks gc

pub sub64_lem : (a b : ℕ) → b ≤ a → a < u64_mod → sub64 a b ≡ a - b
unfolding sub64
sub64_lem a b h l = omega arith

AreGarbage-delete_key :
    (dirty : List ℕ) (j : GcKey) (ks : List Candidate) (gc : List GcKey)
    → Above j (keys ks)
    → AreGarbage dirty ks gc
    → AreGarbage dirty ks (delete_key j gc)
AreGarbage-delete_key dirty j [] gc a h = tt
AreGarbage-delete_key dirty j (k ∷ ks) gc a h = (
  λ e. rw (has_key-delete_other k.key j gc (after_not_same j k.key a.0)) (h.0 e),
  AreGarbage-delete_key dirty j ks gc a.1 h.1,
)

removals-gc :
    (c : Config) (dirty : List ℕ) (ks : List Candidate) (gc : List GcKey) (n : ℕ)
    → IsAscending gc
    → IsAscending (keys ks)
    → AreGarbage dirty ks gc
    → length ks ≤ n
    → n < u64_mod
    → IsAscending (gc_all (removals c dirty ks) gc)
      × (length (gc_all (removals c dirty ks) gc) + weed dirty n ks + length ks ≡ length gc + n)
      × (weed dirty n ks ≤ n)
removals-gc c dirty [] gc n a o g l u = (a, omega arith, omega arith)
removals-gc c dirty (k ∷ ks) gc n a o g l u = elim (Bool-cases (member_of k.key.address dirty)) [
  | inl e ↦
      let ih = removals-gc c dirty ks gc (n - 1) a o.1 g.1 (omega arith) (omega arith) in
      rw (e, sub64_lem n 1 (omega arith) u) (ih.0, omega arith, omega arith)
  | inr m ↦
      let ih =
        removals-gc c dirty ks (delete_key k.key gc) n (delete_key-IsAscending k.key gc a) o.1
          (AreGarbage-delete_key dirty k.key ks gc o.0 g.1) (omega arith) u in
      let d = length-delete_key k.key gc (g.0 m) in rw m (ih.0, omega arith, omega arith)
]

-- gcSize stays the number of the chunks that are garbage, and goes down by what is collected, when
-- the keys of the candidates are in order and every candidate that is not dirty is garbage still.
pub collect-IsBalanced :
    (c : Config) (target : ℕ) (ks : List Candidate) (db : Db)
    → IsBalanced db
    → length db.gc < u64_mod
    → length ks < u64_mod
    → IsAscending (keys ks)
    → AreGarbage db.dirty_addresses ks db.gc
    → IsBalanced (collect c target ks db).1
      × (length (collect c target ks db).1.gc + (collect c target ks db).0.0 ≡ length db.gc)
unfolding collect
collect-IsBalanced c target ks db b l u o g =
    let r = removals-gc c db.dirty_addresses ks db.gc (length ks) b.0 o g (omega arith) u in
    let n = weed db.dirty_addresses (length ks) ks in
    let ws = removals c db.dirty_addresses ks in
    let s : sub64 db.gc_size n ≡ length db.gc - n =
      rw b.1 (sub64_lem (length db.gc) n (let x = r.1 in omega arith) l) in
    let gs : List Write = put_gc_size (sub64 db.gc_size n) ∷ [] in
    let e : (write_batch (ws ++ gs) db).gc ≡ gc_all ws db.gc =
      rw (gc-write_batch (ws ++ gs) db, gc_all-append ws gs db.gc) refl in
    let z : (write_batch (ws ++ gs) db).gc_size ≡ sub64 db.gc_size n =
      rw (gc_size-write_batch (ws ++ gs) db, size_all-append ws gs db.gc_size) refl in
    let x = r.1 in ((rw e r.0, rw (e, z, s) (omega arith)), rw e (omega arith))
