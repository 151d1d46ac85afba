-- ===== src/Localstore/Erasing.antt =====
-- What collectGarbage deletes of the chunks that it collects (pkg/localstore/gc.go).
use sana.Common.{
  ℕ, ◌-◌, ◌≡◌, Bool, false, ◌&&◌, ◌||◌, none, List, [], ◌∷◌, map, length, take, ◌==◌, if◌then◌else◌,
}
use Prim.Native.Nat.{min}
use sana.Localstore.State.{Db, Config}
use sana.Localstore.Collect.{gc_batch_size, Candidate, candidate}

abbrev pub any : (Candidate → Bool) → List Candidate → Bool
any f [] = false
any f (k ∷ ks) = f k || any f ks

-- The chunks `ks` are deleted from each index that has them, with their stamps; all other entries, and
-- all pins, stay.
pub record Erased (c : Config) (db : Db) (ks : List Candidate) (t : Db) : Type 0 where
  pub data_left :
      (a : ℕ)
      → t.retrieval_data a
        ≡ (if any (λ k. k.key.address == a) ks then none else db.retrieval_data a)
  pub access_left :
      (a : ℕ)
      → t.retrieval_access a
        ≡ (if any (λ k. k.key.address == a) ks then none else db.retrieval_access a)
  pub pull_left :
      (p b : ℕ)
      → t.pull p b
        ≡ (if any (λ k. c.po k.key.address == p && k.key.bin == b) ks then none else db.pull p b)
  pub postage_chunks_left :
      (b a : ℕ)
      → t.postage_chunks b a ≡ (
          if any (λ k. k.batch_id == b && k.key.address == a) ks
          then false
          else db.postage_chunks b a)
  pub postage_index_left :
      (b i : ℕ)
      → t.postage_index b i
        ≡ (if any (λ k. k.batch_id == b && k.index == i) ks then none else db.postage_index b i)
  pub pins_kept : (a : ℕ) → t.pin a ≡ db.pin a

-- The oldest chunks above the target, at most gcBatchSize.
abbrev pub oldest : ℕ → Db → List Candidate
oldest target db = map (candidate db) (take (min gc_batch_size (length db.gc - target)) db.gc)
