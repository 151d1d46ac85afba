-- ===== src/Localstore/Worker.antt =====
-- collectGarbageWorker (pkg/localstore/gc.go) repeats collectGarbage.
use sana.Common.{
  ℕ, zero, suc, ◌+◌, ◌-◌, ◌<◌, ◌≡◌, refl, sym, subst, ap, ◌∙◌, Bool, true, false, Option, none,
  some, List, [], ◌∷◌, ◌++◌, length, length-drop, drop, inl, inr, arith, Bool-cases, leb, leb→le,
  not_leb→lt, ◌==◌,
}
use Prim.Native.Nat.{min}
use sana.Common.Word.{u64_mod}
use sana.Localstore.Keys.{GcKey}
use sana.Localstore.State.{Db, Config, Write, put_gc_size}
use sana.Localstore.Collect.{
  gc_batch_size, sub64, select, Candidate, weed, removals, collect, collect_garbage,
  start_collecting,
}
use sana.Localstore.Writes.{size_all-append, gc_size-write_batch}
use sana.Localstore.Balance.{IsBalanced}
use sana.Localstore.Garbage.{collect_garbage-drop, collect_garbage-IsBalanced}
use sana.Localstore.Meanwhile.{selected-AreGarbage}

-- Another run follows if this one is not done.
abbrev pub proceed : Bool → Db → Option Db → Option Db
proceed true db next = some db
proceed false db next = next

-- The runs that one signal causes, when nothing else happens: each that is not done signals the next.
-- With no fuel left it is none.
unfoldable pub worker : ℕ → Config → ℕ → Db → Option Db
worker zero c target db = none
worker (suc fuel) c target db =
    let run = collect_garbage c target (λ d. d) db in
    proceed run.0.1 run.1 (worker fuel c target run.1)

collect-done :
    (c : Config) (target : ℕ) (ks : List Candidate) (db : Db)
    → (collect c target ks db).0.1 ≡ leb (collect c target ks db).1.gc_size target
unfolding collect
collect-done c target ks db =
    let ws = removals c db.dirty_addresses ks in
    let gs : List Write =
      put_gc_size (sub64 db.gc_size (weed db.dirty_addresses (length ks) ks)) ∷ [] in
    rw (gc_size-write_batch (ws ++ gs) db, size_all-append ws gs db.gc_size) refl

-- A run is done exactly when gcSize has come down to the target.
collect_garbage-done :
    (c : Config) (target : ℕ) (db : Db)
    → (collect_garbage c target (λ d. d) db).0.1
      ≡ leb (collect_garbage c target (λ d. d) db).1.gc_size target
unfolding collect_garbage
collect_garbage-done c target db = elim (Bool-cases (db.gc_size == target)) [
  | inl e ↦ rw e (ground arith)
  | inr n ↦
      let started = start_collecting db in
      rw n (collect-done c target (select started target 0 started.gc) started)
]

collect_garbage-clean :
    (c : Config) (target : ℕ) (db : Db)
    → (collect_garbage c target (λ d. d) db).1.dirty_addresses ≡ []
unfolding collect_garbage collect
collect_garbage-clean c target db = elim (Bool-cases (db.gc_size == target)) [
  | inl e ↦ rw e refl
  | inr n ↦ rw n refl
]

quiet-IsBalanced :
    (c : Config) (target : ℕ) (db : Db)
    → IsBalanced db
    → length db.gc < u64_mod
    → IsBalanced (collect_garbage c target (λ d. d) db).1
quiet-IsBalanced c target db b l =
    collect_garbage-IsBalanced c target (λ d. d) db b l b l
      (selected-AreGarbage (start_collecting db) db.dirty_addresses target 0 db.gc db.gc (λ k h. h))

drop_nil : (n : ℕ) → drop {A = GcKey} n [] ≡ []
drop_nil zero = refl
drop_nil (suc n) = refl

drop-drop : (m n : ℕ) (ks : List GcKey) → drop n (drop m ks) ≡ drop (m + n) ks
drop-drop zero n ks = let e : 0 + n ≡ n = omega arith in rw e refl
drop-drop (suc m) n [] = let e : suc m + n ≡ suc (m + n) = omega arith in rw e (drop_nil n)
drop-drop (suc m) n (k ∷ ks) =
    let e : suc m + n ≡ suc (m + n) = omega arith in rw e (drop-drop m n ks)

-- The worker stops, with the oldest chunks above the target removed.
abbrev pub Stops : ℕ → List GcKey → Option Db → Type 0
Stops target gc none = ⊥
Stops target gc (some after) = after.gc ≡ drop (length gc - target) gc

no_less : (n : ℕ) → n < 0 → ⊥
no_less n h = omega arith

Stops-from :
    (target : ℕ) (gc js : List GcKey) (x : Option Db)
    → drop (length js - target) js ≡ drop (length gc - target) gc
    → Stops target js x
    → Stops target gc x
Stops-from target gc js none e h = h
Stops-from target gc js (some after) e h = h ∙ e

-- When gcSize is the number of the chunks that are garbage, below 2^64, the index is in order, no address
-- is dirty and no other call comes, the worker ends, with fuel for more runs than there are such chunks,
-- and leaves the newest of them, as many as the target or all if there are fewer.
pub worker-Stops :
    (fuel : ℕ) (c : Config) (target : ℕ) (db : Db)
    → length db.gc < fuel
    → IsBalanced db
    → length db.gc < u64_mod
    → db.dirty_addresses ≡ []
    → Stops target db.gc (worker fuel c target db)
unfolding worker
worker-Stops zero c target db f b l d = elim (no_less (length db.gc) f) [ ]
worker-Stops (suc fuel) c target db f b l d =
    let run = (collect_garbage c target (λ x. x) db).1 in
    let g : run.gc ≡ drop (min gc_batch_size (length db.gc - target)) db.gc =
      collect_garbage-drop c target db b l d in
    let q = quiet-IsBalanced c target db b l in
    let n : length run.gc ≡ length db.gc - min gc_batch_size (length db.gc - target) =
      rw g (length-drop (min gc_batch_size (length db.gc - target)) db.gc) in
    elim (Bool-cases (leb (length run.gc) target)) [
      | inl e ↦
          let x = leb→le (length run.gc) target e in
          let flag : (collect_garbage c target (λ x. x) db).0.1 ≡ true =
            collect_garbage-done c target db ∙ rw q.1 e in
          let k : min gc_batch_size (length db.gc - target) ≡ length db.gc - target = omega arith in
          subst (λ z. Stops target db.gc (proceed z run (worker fuel c target run))) (sym flag)
            (rw (← k) g)
      | inr m ↦
          let x = not_leb→lt (length run.gc) target m in
          let flag : (collect_garbage c target (λ x. x) db).0.1 ≡ false =
            collect_garbage-done c target db ∙ rw q.1 m in
          let k : min gc_batch_size (length db.gc - target) + (length run.gc - target)
              ≡ length db.gc - target =
            omega arith in
          let same : drop (length run.gc - target) run.gc ≡ drop (length db.gc - target) db.gc =
            rw (← k) (
              ap (drop (length run.gc - target)) g
              ∙ drop-drop (min gc_batch_size (length db.gc - target)) (length run.gc - target)
                  db.gc) in
          subst (λ z. Stops target db.gc (proceed z run (worker fuel c target run))) (sym flag)
            (Stops-from target db.gc run.gc (worker fuel c target run) same (
              worker-Stops fuel c target run (omega arith) q (omega arith)
                (collect_garbage-clean c target db)))
    ]
