-- ===== src/Batchservice/Chain.antt =====
-- The chain state and the checksum after events (pkg/postage/batchservice/batchservice.go).
use sana.Common.{
  ℕ, ◌≡◌, refl, sym, ap, subst, ◌∙◌, Bool, Option, none, some, List, [], ◌∷◌, ◌++◌, ◌==◌,
  if◌then◌else◌, inl, inr, Bool-cases,
}
use sana.Common.Outcome.{done, ◌>>=◌, map_outcome, DoneOf, DoneOf-bind, DoneOf-map, AllOf-DoneOf}
use sana.Batchstore.State.{Batch, ChainState, put, get, or_else, no_chain}
use sana.Batchstore.Chain.{put_chain_state}
use sana.Batchstore.Chained.{HasChain, put-HasChain, put_chain_state-HasChain}
use sana.Batchservice.State.{
  Bytes, Service, Event, created, topped_up, depth_increased, price_updated, Log, in_store,
  update_checksum, tell_listener, create, put_found, top_up, update_depth, update_price, next_chain,
  update_block_number, dispatch, process_event, updater, or_empty,
}
use sana.Syncer.State.{process_all}

-- The chain state after a block and after an event, by these alone.
abbrev pub after_event : Option Event → ChainState → ChainState
after_event (some (price_updated price)) cs = record cs { current_price = price }
after_event (some (created id owner balance depth bucket immutable)) cs = cs
after_event (some (topped_up id balance)) cs = cs
after_event (some (depth_increased id depth balance)) cs = cs
after_event none cs = cs

abbrev pub after_block : ℕ → ChainState → ChainState
after_block block cs = if block == cs.block then cs else next_chain block cs

abbrev pub after_logs : List Log → ChainState → ChainState
after_logs [] cs = cs
after_logs (log ∷ logs) cs = after_logs logs (after_event log.event (after_block log.block cs))

module _ (hash : Bytes → Bytes) (owner fuel : ℕ) (evict_fn : ℕ → Bool) where
  -- The checksum after the transactions.
  abbrev pub sum_of : List Log → Bytes → Bytes
  sum_of [] w = w
  sum_of (log ∷ logs) w = sum_of logs (hash (w ++ log.tx_hash))

  -- The service has this chain state and checksum, in memory and saved.
  abbrev pub Agrees : ChainState → Bytes → Service → Type 0
  Agrees cs w svc =
      (svc.store.chain ≡ cs)
      × (or_else svc.store.saved_chain (no_chain 0) ≡ cs)
      × (svc.written ≡ w)
      × (or_empty svc.saved_sum ≡ w)

  put-Agrees :
      (b : Batch) (value depth : ℕ) (cs : ChainState) (w : Bytes) (svc : Service)
      → Agrees cs w svc
      → DoneOf (Agrees cs w) (map_outcome (in_store svc) (put fuel b value depth svc.store))
  put-Agrees b value depth cs w svc a =
      let kept =
        put-HasChain svc.store.chain svc.store.saved_chain fuel b value depth svc.store
          (refl, refl) in
      DoneOf-map (HasChain svc.store.chain svc.store.saved_chain) (Agrees cs w) (in_store svc)
        (put fuel b value depth svc.store)
        (λ s h. (h.0 ∙ a.0, ap (λ o. or_else o (no_chain 0)) h.1 ∙ a.1, a.2, a.3))
        (AllOf-DoneOf (HasChain svc.store.chain svc.store.saved_chain)
          (put fuel b value depth svc.store) kept)

  put_chain_state-Agrees :
      (new cs : ChainState) (w : Bytes) (svc : Service)
      → Agrees cs w svc
      → DoneOf (Agrees new w) (map_outcome (in_store svc) (put_chain_state evict_fn new svc.store))
  put_chain_state-Agrees new cs w svc a =
      DoneOf-map (HasChain new (some new)) (Agrees new w) (in_store svc)
        (put_chain_state evict_fn new svc.store)
        (λ s h. (h.0, ap (λ o. or_else o (no_chain 0)) h.1, a.2, a.3))
        (put_chain_state-HasChain evict_fn new svc.store)

  checksum-Agrees :
      (tx : Bytes) (cs : ChainState) (w : Bytes) (svc : Service)
      → Agrees cs w svc
      → Agrees cs (hash (w ++ tx)) (update_checksum hash owner fuel evict_fn tx svc)
  unfolding update_checksum
  checksum-Agrees tx cs w svc a =
      let e : hash (svc.written ++ tx) ≡ hash (w ++ tx) = ap (λ v. hash (v ++ tx)) a.2 in
      (a.0, a.1, e, e)

  told-Agrees :
      (b : Batch) (cs : ChainState) (w : Bytes) (svc : Service)
      → Agrees cs w svc
      → Agrees cs w (tell_listener hash owner fuel evict_fn b svc)
  told-Agrees b cs w svc a = elim (Bool-cases (b.owner == owner)) [
    | inl y ↦ rw y a
    | inr n ↦ rw n a
  ]

  pub update_block_number-Agrees :
      (block : ℕ) (cs : ChainState) (w : Bytes) (svc : Service)
      → Agrees cs w svc
      → DoneOf
          (Agrees (after_block block cs) w)
          (update_block_number hash owner fuel evict_fn block svc)
  unfolding update_block_number
  update_block_number-Agrees block cs w svc a =
      subst
        (λ c.
          DoneOf (Agrees (after_block block c) w)
            (update_block_number hash owner fuel evict_fn block svc))
        a.0
        (elim (Bool-cases (block == svc.store.chain.block)) [
          | inl y ↦ rw y (refl, a.1 ∙ sym a.0, a.2, a.3)
          | inr n ↦ rw n (put_chain_state-Agrees (next_chain block svc.store.chain) cs w svc a)
        ])

  put_found-Agrees :
      (o : Option Batch) (depth_of : Batch → ℕ) (balance : ℕ) (tx : Bytes) (cs : ChainState)
      (w : Bytes) (svc : Service)
      → Agrees cs w svc
      → DoneOf
          (Agrees cs (hash (w ++ tx)))
          (put_found hash owner fuel evict_fn o depth_of balance tx svc)
  put_found-Agrees none depth_of balance tx cs w svc a = tt
  put_found-Agrees (some b) depth_of balance tx cs w svc a =
      DoneOf-bind (Agrees cs w) (Agrees cs (hash (w ++ tx)))
        (map_outcome (in_store svc) (put fuel b balance (depth_of b) svc.store))
        (λ t. done (update_checksum hash owner fuel evict_fn tx t))
        (put-Agrees b balance (depth_of b) cs w svc a) (λ t k. checksum-Agrees tx cs w t k)

  create-Agrees :
      (id o balance depth bucket : ℕ) (immutable : Bool) (tx : Bytes) (cs : ChainState) (w : Bytes)
      (svc : Service)
      → Agrees cs w svc
      → DoneOf
          (Agrees cs (hash (w ++ tx)))
          (create hash owner fuel evict_fn id o balance depth bucket immutable tx svc)
  unfolding create
  create-Agrees id o balance depth bucket immutable tx cs w svc a =
      let b : Batch = record {
        id = id;
        value = 0;
        start = svc.store.chain.block;
        owner = o;
        depth = depth;
        bucket_depth = bucket;
        immutable = immutable;
        radius = 0;
      } in
      let told = tell_listener hash owner fuel evict_fn (record b { value = balance }) in
      DoneOf-bind (Agrees cs w) (Agrees cs (hash (w ++ tx)))
        (map_outcome (in_store svc) (put fuel b balance depth svc.store))
        (λ t. done (update_checksum hash owner fuel evict_fn tx (told t)))
        (put-Agrees b balance depth cs w svc a)
        (λ t k.
          checksum-Agrees tx cs w (told t) (told-Agrees (record b { value = balance }) cs w t k))

  pub dispatch-Agrees :
      (e : Option Event) (tx : Bytes) (cs : ChainState) (w : Bytes) (svc : Service)
      → Agrees cs w svc
      → DoneOf
          (Agrees (after_event e cs) (hash (w ++ tx)))
          (dispatch hash owner fuel evict_fn e tx svc)
  unfolding top_up update_depth update_price
  dispatch-Agrees none tx cs w svc a = tt
  dispatch-Agrees (some (created id o balance depth bucket immutable)) tx cs w svc a =
      create-Agrees id o balance depth bucket immutable tx cs w svc a
  dispatch-Agrees (some (topped_up id balance)) tx cs w svc a =
      put_found-Agrees (get id svc.store) (λ b. b.depth) balance tx cs w svc a
  dispatch-Agrees (some (depth_increased id depth balance)) tx cs w svc a =
      put_found-Agrees (get id svc.store) (λ _. depth) balance tx cs w svc a
  dispatch-Agrees (some (price_updated price)) tx cs w svc a =
      let new = record svc.store.chain { current_price = price } in
      let new' = record cs { current_price = price } in
      subst
        (λ c.
          DoneOf (Agrees (record c { current_price = price }) (hash (w ++ tx)))
            (update_price hash owner fuel evict_fn price tx svc))
        a.0
        (DoneOf-bind (Agrees new w) (Agrees new (hash (w ++ tx)))
          (map_outcome (in_store svc) (put_chain_state evict_fn new svc.store))
          (λ t. done (update_checksum hash owner fuel evict_fn tx t))
          (put_chain_state-Agrees new cs w svc a) (λ t k. checksum-Agrees tx new w t k))

  -- Events that are all processed leave the chain state and the checksum that their logs give, whatever
  -- the batches are.
  pub process_all-Agrees :
      (logs : List Log) (cs : ChainState) (w : Bytes) (svc : Service)
      → Agrees cs w svc
      → DoneOf
          (Agrees (after_logs logs cs) (sum_of logs w))
          (process_all (updater hash owner fuel evict_fn) logs svc)
  unfolding process_all process_event
  process_all-Agrees [] cs w svc a = a
  process_all-Agrees (log ∷ logs) cs w svc a =
      let up = updater hash owner fuel evict_fn in
      let mid = after_block log.block cs in
      let new = after_event log.event mid in
      let sum = hash (w ++ log.tx_hash) in
      let End = Agrees (after_logs logs new) (sum_of logs sum) in
      DoneOf-bind (Agrees mid w) End (update_block_number hash owner fuel evict_fn log.block svc)
        (λ t. process_event hash owner fuel evict_fn log t >>= process_all up logs)
        (update_block_number-Agrees log.block cs w svc a)
        (λ t k.
          DoneOf-bind (Agrees new sum) End (process_event hash owner fuel evict_fn log t)
            (process_all up logs) (dispatch-Agrees log.event log.tx_hash mid w t k)
            (process_all-Agrees logs new sum))
