-- ===== src/Batchstore/Chained.antt =====
-- The chain state under Put and PutChainState (pkg/postage/batchstore/store.go).
use sana.Common.{
  ℕ, zero, suc, ◌≡◌, refl, Bool, Option, none, some, List, [], ◌∷◌, if◌then◌else◌, inl, inr,
  Bool-cases, not, ◌&&◌,
}
use sana.Common.Int.{ℤ, pos, ltb_ℤ, leb_ℤ, eqb_ℤ}
use sana.Common.Outcome.{Outcome, done, AllOf, DoneOf, AllOf-bind, AllOf-DoneOf, DoneOf-bind}
use sana.Reserve.State.{change}
use sana.Batchstore.State.{
  Batch, ChainState, Store, put, update, evict_outer, evict_keys, evict_key, batch_at, get,
  unreserve, take_outer, take_change, deepen, raise_outer, save_reserve, tell_radius, set_batch,
  insert_key, delete_key,
}
use sana.Batchstore.Chain.{
  delete, delete_one, expire_keys, expire_key, evict_expired, put_chain_state, finish_expired,
  raise_limits, until_of, Spent,
}

-- The chain state in memory and the saved one are these.
abbrev pub HasChain : ChainState → Option ChainState → Store → Type 0
HasChain cs saved s = (s.chain ≡ cs) × (s.saved_chain ≡ saved)

module _ (cs : ChainState) (saved : Option ChainState) where
  evict_key-HasChain :
      (b : Option Batch) (k : Store → Outcome Store) (s : Store)
      → HasChain cs saved s
      → ((t : Store) → HasChain cs saved t → AllOf (HasChain cs saved) (k t))
      → AllOf (HasChain cs saved) (evict_key b k s)
  unfolding unreserve
  evict_key-HasChain none k s h f = h
  evict_key-HasChain (some b) k s h f =
      elim (Bool-cases (ltb_ℤ (pos b.value) s.reserve.outer_limit)) [
        | inl y ↦ rw y (f s h)
        | inr n ↦
            let test =
              leb_ℤ (pos 0) s.reserve.available
              && not (eqb_ℤ s.reserve.outer_limit (pos b.value)) in
            elim (Bool-cases test) [
              | inl y ↦ rw (n, y) h
              | inr m ↦ rw (n, m) (f (unreserve b.id s.reserve.radius (take_outer b s)) h)
            ]
      ]

  evict_keys-HasChain :
      (last : Batch) (keys : List (ℕ × ℕ)) (s : Store)
      → HasChain cs saved s
      → AllOf (HasChain cs saved) (evict_keys last keys s)
  unfolding evict_keys
  evict_keys-HasChain last [] s h = h
  evict_keys-HasChain last ((v, id) ∷ keys) s h =
      evict_key-HasChain (batch_at last id s) (evict_keys last keys) s h
        (evict_keys-HasChain last keys)

  evict_outer-HasChain :
      (n : ℕ) (last : Batch) (s : Store)
      → HasChain cs saved s
      → AllOf (HasChain cs saved) (evict_outer n last s)
  unfolding evict_outer
  evict_outer-HasChain zero last s h = tt
  evict_outer-HasChain (suc n) last s h = elim (Bool-cases (leb_ℤ (pos 0) s.reserve.available)) [
    | inl y ↦ rw y h
    | inr m ↦ rw m (
        AllOf-bind (HasChain cs saved) (HasChain cs saved) (evict_keys last s.values s)
          (λ t.
            let again = evict_outer n last (deepen (raise_outer t)) in
            if ltb_ℤ t.reserve.available (pos 0)
            then again
            else done (save_reserve (raise_outer t)))
          (λ t k. k) (evict_keys-HasChain last s.values s h)
          (λ t k. elim (Bool-cases (ltb_ℤ t.reserve.available (pos 0))) [
            | inl y ↦ rw y (evict_outer-HasChain n last (deepen (raise_outer t)) k)
            | inr z ↦ rw z k
          ]))
  ]

  -- Put keeps the chain state, also when it fails.
  pub put-HasChain :
      (fuel : ℕ) (b : Batch) (value depth : ℕ) (s : Store)
      → HasChain cs saved s
      → AllOf (HasChain cs saved) (put fuel b value depth s)
  unfolding put update unreserve
  put-HasChain fuel b value depth s h =
      let new = record b { value = value; depth = depth } in
      let keys = insert_key (value, b.id) (delete_key (b.value, b.id) s.values) in
      let changed =
        take_change (change s.reserve (pos b.value) (pos value) b.depth depth) b.id
          (record s { values = keys }) in
      AllOf-bind (HasChain cs saved) (HasChain cs saved) (evict_outer fuel new changed)
        (λ t. done (record (tell_radius t) { batches = set_batch b.id (some new) t.batches }))
        (λ t k. k) (evict_outer-HasChain fuel new changed h) (λ t k. k)

  delete_one-HasChain :
      (id : ℕ) (o : Option Batch) (k : Store → Outcome Store) (s : Store)
      → HasChain cs saved s
      → ((t : Store) → HasChain cs saved t → AllOf (HasChain cs saved) (k t))
      → AllOf (HasChain cs saved) (delete_one id o k s)
  delete_one-HasChain id none k s h f = h
  delete_one-HasChain id (some b) k s h f =
      f
        (record s {
          values = delete_key (b.value, id) s.values;
          batches = set_batch id none s.batches;
        })
        h

  delete-HasChain :
      (ids : List ℕ) (s : Store) → HasChain cs saved s → AllOf (HasChain cs saved) (delete ids s)
  unfolding delete
  delete-HasChain [] s h = h
  delete-HasChain (id ∷ ids) s h =
      delete_one-HasChain id (get id s) (delete ids) s h (delete-HasChain ids)

  module _ (evict_fn : ℕ → Bool) (until : ℤ) where
    expire_key-HasChain :
        (o : Option Batch) (k : ℕ → List ℕ → Store → Spent) (m : ℕ) (ids : List ℕ) (s : Store)
        → HasChain cs saved s
        → ((n : ℕ) (l : List ℕ) (t : Store)
            → HasChain cs saved t
            → AllOf (HasChain cs saved) (k n l t).1)
        → AllOf (HasChain cs saved) (expire_key evict_fn until o k m ids s).1
    expire_key-HasChain none k m ids s h f = h
    expire_key-HasChain (some b) k m ids s h f = elim (Bool-cases (leb_ℤ until (pos b.value))) [
      | inl y ↦ rw y h
      | inr n ↦ elim (Bool-cases (evict_fn b.id)) [
        | inl y ↦ rw (n, y) (f _ _ _ h)
        | inr z ↦ rw (n, z) h
      ]
    ]

    expire_keys-HasChain :
        (keys : List (ℕ × ℕ)) (m : ℕ) (ids : List ℕ) (s : Store)
        → HasChain cs saved s
        → AllOf (HasChain cs saved) (expire_keys evict_fn until keys m ids s).1
    unfolding expire_keys
    expire_keys-HasChain [] m ids s h = h
    expire_keys-HasChain ((v, id) ∷ keys) m ids s h =
        expire_key-HasChain (get id s) (expire_keys evict_fn until keys) m ids s h
          (expire_keys-HasChain keys)

    finish-HasChain :
        (spent : Spent)
        → AllOf (HasChain cs saved) spent.1
        → AllOf (HasChain cs saved) (finish_expired until spent)
    finish-HasChain (ids, end) h =
        AllOf-bind (HasChain cs saved) (HasChain cs saved) end
          (λ s. delete ids (save_reserve (raise_limits until s))) (λ t k. k) h
          (λ t k. delete-HasChain ids (save_reserve (raise_limits until t)) k)

-- PutChainState that succeeds leaves its argument in memory and saved.
pub put_chain_state-HasChain :
    (evict_fn : ℕ → Bool) (cs : ChainState) (s : Store)
    → DoneOf (HasChain cs (some cs)) (put_chain_state evict_fn cs s)
unfolding put_chain_state evict_expired
put_chain_state-HasChain evict_fn cs s =
    let start = record s { chain = cs } in
    let until = until_of s.reserve cs in
    let all =
      finish-HasChain cs s.saved_chain evict_fn until
        (expire_keys evict_fn until s.values 0 [] start)
        (expire_keys-HasChain cs s.saved_chain evict_fn until s.values 0 [] start (refl, refl)) in
    DoneOf-bind (HasChain cs s.saved_chain) (HasChain cs (some cs)) (evict_expired evict_fn start)
      (λ t. done (record (tell_radius t) { saved_chain = some cs }))
      (AllOf-DoneOf (HasChain cs s.saved_chain) (evict_expired evict_fn start) all)
      (λ t k. (k.0, refl))
