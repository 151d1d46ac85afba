-- ===== src/Localstore/Garbage.antt =====
-- What collectGarbage takes and leaves (pkg/localstore/gc.go).
use sana.Common.{
  ℕ, zero, suc, ◌+◌, ◌-◌, ◌<◌, ◌≤◌, ◌≡◌, refl, ◌∙◌, leb→le, not_leb→lt, List, [], ◌∷◌, ◌++◌, map,
  length, take, drop, inl, inr, arith, Bool-cases, leb, ◌==◌,
}
use Prim.Native.Nat.{min}
use sana.Common.Word.{u64_mod}
use sana.Localstore.Keys.{same_key_refl, GcKey, IsAscending, delete_key, Above}
use sana.Localstore.State.{Db, Config, Write, put_gc_size}
use sana.Localstore.Collect.{
  gc_batch_size, sub64, Candidate, candidate, select, weed, removals, collect, collect_garbage,
  start_collecting,
}
use sana.Localstore.Writes.{gc_all, gc_all-append, gc-write_batch}
use sana.Localstore.Balance.{IsBalanced}
use sana.Localstore.Collected.{keys, AreGarbage, sub64_lem, collect-IsBalanced}

-- How many are taken of so many, when so many were taken before.
abbrev pub share : ℕ → ℕ → ℕ → ℕ
share target n size = min (gc_batch_size - n) (size - target)

pub select-take :
    (db : Db) (target n : ℕ) (ks : List GcKey)
    → db.gc_size ≡ n + length ks
    → db.gc_size < u64_mod
    → n < gc_batch_size
    → select db target n ks ≡ map (candidate db) (take (share target n (length ks)) ks)
unfolding select
select-take db target n [] h l u = let e : share target n 0 ≡ 0 = omega arith in rw e refl
select-take db target n (k ∷ ks) h l u =
    let d : sub64 db.gc_size n ≡ suc (length ks) =
      sub64_lem db.gc_size n (omega arith) l ∙ omega arith in
    elim (Bool-cases (leb (suc (length ks)) target)) [
      | inl t ↦
          let x = leb→le (suc (length ks)) target t in
          let e : share target n (suc (length ks)) ≡ 0 = omega arith in rw (d, t, e) refl
      | inr f ↦
          let y = not_leb→lt (suc (length ks)) target f in
          elim (Bool-cases (leb gc_batch_size (suc n))) [
            | inl t ↦
                let x = leb→le gc_batch_size (suc n) t in
                let e : share target n (suc (length ks)) ≡ 1 = omega arith in rw (d, f, t, e) refl
            | inr g ↦
                let x = not_leb→lt gc_batch_size (suc n) g in
                let e : share target n (suc (length ks)) ≡ suc (share target (suc n) (length ks)) =
                  omega arith in
                rw (d, f, g, e, select-take db target (suc n) ks (omega arith) l x) refl
          ]
    ]

Above-take :
    (m : ℕ) (i : GcKey) (db : Db) (ks : List GcKey)
    → Above i ks
    → Above i (keys (map (candidate db) (take m ks)))
Above-take zero i db ks a = tt
Above-take (suc m) i db [] a = tt
Above-take (suc m) i db (k ∷ ks) a = (a.0, Above-take m i db ks a.1)

IsAscending-take :
    (m : ℕ) (db : Db) (ks : List GcKey)
    → IsAscending ks
    → IsAscending (keys (map (candidate db) (take m ks)))
IsAscending-take zero db ks a = tt
IsAscending-take (suc m) db [] a = tt
IsAscending-take (suc m) db (k ∷ ks) a = (Above-take m k db ks a.0, IsAscending-take m db ks a.1)

length-take_le :
    (m : ℕ) (db : Db) (ks : List GcKey) → length (map (candidate db) (take m ks)) ≤ length ks
length-take_le zero db ks = omega arith
length-take_le (suc m) db [] = omega arith
length-take_le (suc m) db (k ∷ ks) = let ih = length-take_le m db ks in omega arith

length-take_lt :
    (m : ℕ) (db : Db) (ks : List GcKey)
    → length ks < u64_mod
    → length (map (candidate db) (take m ks)) < u64_mod
length-take_lt m db ks l = let h = length-take_le m db ks in omega arith

removals-drop :
    (c : Config) (db : Db) (m : ℕ) (ks : List GcKey)
    → gc_all (removals c [] (map (candidate db) (take m ks))) ks ≡ drop m ks
unfolding delete_key
removals-drop c db zero ks = refl
removals-drop c db (suc m) [] = refl
removals-drop c db (suc m) (k ∷ ks) = rw (same_key_refl k) (removals-drop c db m ks)

pub collect-gc :
    (c : Config) (target : ℕ) (ks : List Candidate) (db : Db)
    → (collect c target ks db).1.gc ≡ gc_all (removals c db.dirty_addresses ks) db.gc
unfolding collect
collect-gc c target ks db =
    let ws = removals c db.dirty_addresses ks in
    let gs : List Write =
      put_gc_size (sub64 db.gc_size (weed db.dirty_addresses (length ks) ks)) ∷ [] in
    rw (gc-write_batch (ws ++ gs) db, gc_all-append ws gs db.gc) refl

collected-drop :
    (c : Config) (target : ℕ) (db : Db) (ks : List Candidate)
    → db.dirty_addresses ≡ []
    → ks ≡ map (candidate db) (take (share target 0 (length db.gc)) db.gc)
    → (collect c target ks db).1.gc ≡ drop (share target 0 (length db.gc)) db.gc
collected-drop c target db ks d e =
    rw (collect-gc c target ks db, d, e) (removals-drop c db (share target 0 (length db.gc)) db.gc)

-- The keys that are left when gcSize is their number, no address is dirty and no call comes between the
-- steps.
pub collect_garbage-drop :
    (c : Config) (target : ℕ) (db : Db)
    → IsBalanced db
    → length db.gc < u64_mod
    → db.dirty_addresses ≡ []
    → (collect_garbage c target (λ d. d) db).1.gc
      ≡ drop (min gc_batch_size (length db.gc - target)) db.gc
unfolding collect_garbage
collect_garbage-drop c target db b l d = elim (Bool-cases (db.gc_size == target)) [
  | inl e ↦
      let z : min gc_batch_size (length db.gc - target) ≡ 0 =
        (let q = b.1 in let r : db.gc_size ≡ target = ground arith in omega arith) in
      rw (e, z) refl
  | inr n ↦
      let started = start_collecting db in
      let q = b.1 in
      rw n (
        collected-drop c target started (select started target 0 db.gc) d
          (select-take started target 0 db.gc (omega arith) (omega arith) (omega arith)))
]

-- gcSize stays the number of the chunks that are garbage over a run of collectGarbage, whatever calls
-- come between its steps, if these keep it so and leave each candidate garbage that is not dirty.
pub collect_garbage-IsBalanced :
    (c : Config) (target : ℕ) (between : Db → Db) (db : Db)
    → IsBalanced db
    → length db.gc < u64_mod
    → IsBalanced (between (start_collecting db))
    → length (between (start_collecting db)).gc < u64_mod
    → AreGarbage
        (between (start_collecting db)).dirty_addresses
        (select (start_collecting db) target 0 db.gc)
        (between (start_collecting db)).gc
    → IsBalanced (collect_garbage c target between db).1
unfolding collect_garbage
collect_garbage-IsBalanced c target between db b l m k g =
    elim (Bool-cases (db.gc_size == target)) [
      | inl e ↦ rw e b
      | inr n ↦
          let started = start_collecting db in
          let q = b.1 in
          let ks = select started target 0 db.gc in
          let t : ks ≡ map (candidate started) (take (share target 0 (length db.gc)) db.gc) =
            select-take started target 0 db.gc (omega arith) (omega arith) (omega arith) in
          rw n
            (collect-IsBalanced c target ks (between started) m k
              (rw t (length-take_lt (share target 0 (length db.gc)) started db.gc l))
              (rw t (IsAscending-take (share target 0 (length db.gc)) started db.gc b.0)) g).0
    ]
