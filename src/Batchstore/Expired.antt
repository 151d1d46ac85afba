-- ===== src/Batchstore/Expired.antt =====
-- What PutChainState leaves (pkg/postage/batchstore/store.go, pkg/postage/batchstore/reserve.go).
use sana.Common.{
  ℕ, suc, ◌<◌, ◌≡◌, refl, ◌∙◌, Bool, true, false, ◌||◌, Option, none, some, List, [], ◌∷◌, ◌++◌,
  leb, ◌==◌, if◌then◌else◌, inl, inr, Bool-cases, arith,
}
use sana.Common.Int.{pos, ltb_ℤ}
use sana.Reserve.State.{ReserveState}
use sana.Common.Outcome.{done}
use sana.Batchstore.State.{
  Batch, ChainState, Store, get, set_batch, reopen, tell_radius, save_reserve,
}
use sana.Batchstore.Chain.{delete, until_of, evict_expired, put_chain_state, raise_limits}
use sana.Batchstore.Outer.{IsSorted}
use sana.Batchstore.Spending.{Collecting, expire_keys_lem}
use sana.Batchstore.Below.{ids_below, keys_from, AllKnown, AllOther, Distinct}

abbrev pub is_in : ℕ → List ℕ → Bool
is_in j [] = false
is_in j (i ∷ ids) = j == i || is_in j ids

-- The batches without those of the ids.
abbrev pub without : List ℕ → (ℕ → Option Batch) → ℕ → Option Batch
without [] m = m
without (id ∷ ids) m = without ids (set_batch id none m)

without-none : (ids : List ℕ) (m : ℕ → Option Batch) (j : ℕ) → m j ≡ none → without ids m j ≡ none
without-none [] m j e = e
without-none (id ∷ ids) m j e =
    without-none ids (set_batch id none m) j
      (elim (Bool-cases (j == id)) [ inl y ↦ rw y refl | inr n ↦ rw n e ])

without-at :
    (ids : List ℕ) (m : ℕ → Option Batch) (j : ℕ)
    → without ids m j ≡ (if is_in j ids then none else m j)
without-at [] m j = refl
without-at (id ∷ ids) m j = elim (Bool-cases (j == id)) [
  | inl y ↦ rw y (without-none ids (set_batch id none m) j (rw y refl))
  | inr n ↦ without-at ids (set_batch id none m) j ∙ rw n refl
]

AllKnown-set :
    (id : ℕ) (m : ℕ → Option Batch) (keys : List (ℕ × ℕ))
    → AllOther id keys
    → AllKnown m keys
    → AllKnown (set_batch id none m) keys
AllKnown-set id m [] o k = tt
AllKnown-set id m ((v, j) ∷ keys) o k =
    let (b, e, w, x) = k.0 in ((b, rw o.0 e, w, x), AllKnown-set id m keys o.1 k.1)

-- The batches of the first keys of the index are deleted with their keys.
delete-ids_below :
    (limit : ℕ) (keys : List (ℕ × ℕ)) (s : Store)
    → AllKnown s.batches keys
    → Distinct keys
    → delete (ids_below limit keys) (record s { values = keys })
      ≡ done (record s {
        values = keys_from limit keys;
        batches = without (ids_below limit keys) s.batches;
      })
unfolding delete get
delete-ids_below limit [] s k d = refl
delete-ids_below limit ((v, id) ∷ keys) s k d = elim (Bool-cases (leb limit v)) [
  | inl y ↦ rw y refl
  | inr n ↦
      let (b, e, w, x) = k.0 in
      let same : (v == v) ≡ true = ground arith in
      let here : (id == id) ≡ true = ground arith in
      rw (n, e, w, same, here)
        (delete-ids_below limit keys (record s { batches = set_batch id none s.batches })
          (AllKnown-set id s.batches keys d.0 k.1) d.1)
]

-- After evictExpired with this total amount: exactly the batches of at most this value are gone, with
-- their keys, those below `until` were evicted from the localstore, in the order of their values, and
-- the limits are raised to it. The available capacity is what it was.
pub record IsExpired (s t : Store) (total until : ℕ) : Type 0 where
  pub values_left : t.values ≡ keys_from (suc total) s.values
  pub batches_left :
      (j : ℕ)
      → t.batches j ≡ (if is_in j (ids_below (suc total) s.values) then none else s.batches j)
  pub evictions : t.evicted ≡ s.evicted ++ ids_below until s.values
  pub inner_now : t.reserve.inner_limit ≡ pos until
  pub outer_now :
      t.reserve.outer_limit
      ≡ (if ltb_ℤ s.reserve.outer_limit (pos until) then pos until else s.reserve.outer_limit)
  pub same_capacity : t.reserve.available ≡ s.reserve.available
  pub same_radius : t.reserve.radius ≡ s.reserve.radius

abbrev pub limit_for : ℕ → ℕ → ℕ
limit_for total i = if leb i total then suc total else i

until_of_lem :
    (rs : ReserveState) (cs : ChainState) (i : ℕ)
    → rs.inner_limit ≡ pos i
    → 0 < i
    → until_of rs cs ≡ pos (limit_for cs.total_amount i)
unfolding until_of
until_of_lem rs cs i e h = ground arith

-- PutChainState with a new chain state, when each eviction from the localstore succeeds, on an index in
-- the order of the values that has one key for each of its batches, with a positive inner limit and a
-- radius from 1 to 191: it deletes exactly the batches whose value the total amount has reached, evicts
-- those below the new inner limit, gives back no capacity, and what New reads again is the chain and
-- reserve state that it leaves.
pub put_chain_state-IsExpired :
    (evict_fn : ℕ → Bool) (cs : ChainState) (s : Store) (i : ℕ)
    → ((id : ℕ) → evict_fn id ≡ true)
    → Collecting (record s { chain = cs }) cs.total_amount i
    → IsSorted s.values
    → AllKnown s.batches s.values
    → Distinct s.values
    → (t : Store) × (put_chain_state evict_fn cs s ≡ done t)
      × IsExpired s t cs.total_amount (limit_for cs.total_amount i)
      × ((reopen t).chain ≡ cs)
      × ((reopen t).reserve ≡ t.reserve)
unfolding put_chain_state evict_expired reopen
put_chain_state-IsExpired evict_fn cs s i always c o k d =
    let until = limit_for cs.total_amount i in
    let total = cs.total_amount in
    let e = until_of_lem s.reserve cs i c.inner_is c.inner_positive in
    let above : total < until = ground arith in
    let loop =
      expire_keys_lem evict_fn always total until i s.values 0 [] (record s { chain = cs }) above c
        o k (inl refl) in
    let visited = record s { chain = cs; evicted = s.evicted ++ ids_below until s.values } in
    let raised = save_reserve (raise_limits (pos until) visited) in
    let deleted = delete-ids_below (suc total) s.values raised k d in
    let left = record raised {
      values = keys_from (suc total) s.values;
      batches = without (ids_below (suc total) s.values) s.batches;
    } in
    (
      record (tell_radius left) { saved_chain = some cs },
      rw (e, loop, deleted) refl,
      record {
        values_left = refl;
        batches_left = without-at (ids_below (suc total) s.values) s.batches;
        evictions = refl;
        inner_now = refl;
        outer_now = refl;
        same_capacity = refl;
        same_radius = refl;
      },
      refl,
      refl,
    )
