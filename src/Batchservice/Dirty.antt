-- ===== src/Batchservice/Dirty.antt =====
-- The mark that a page has started, under the events of the page
-- (pkg/postage/batchservice/batchservice.go).
use sana.Common.{ℕ, ◌≡◌, Bool, true, Option, none, some, List, [], ◌∷◌, ◌==◌, inl, inr, Bool-cases}
use sana.Common.Outcome.{Outcome, done, ◌>>=◌, map_outcome, AllOf, AllOf-bind, AllOf-map, AllOf-any}
use sana.Batchstore.State.{Batch, Store, put, get}
use sana.Batchstore.Chain.{put_chain_state}
use sana.Batchservice.State.{
  Bytes, Service, Event, created, topped_up, depth_increased, price_updated, Log, in_store,
  update_checksum, tell_listener, create, put_found, top_up, update_depth, update_price, next_chain,
  update_block_number, dispatch, process_event, updater,
}
use sana.Syncer.State.{process_all}

abbrev pub IsDirty : Service → Type 0
IsDirty svc = svc.dirty ≡ true

module _ (hash : Bytes → Bytes) (owner fuel : ℕ) (evict_fn : ℕ → Bool) where
  store-IsDirty :
      (m : Outcome Store) (svc : Service)
      → IsDirty svc
      → AllOf IsDirty (map_outcome (in_store svc) m)
  store-IsDirty m svc d =
      AllOf-map (λ _. Unit {0}) IsDirty (in_store svc) m (λ s u. d)
        (AllOf-any (λ _. Unit {0}) m (λ s. tt))

  summed-IsDirty :
      (m : Outcome Store) (f : Service → Service) (tx : Bytes) (svc : Service)
      → ((t : Service) → IsDirty t → IsDirty (f t))
      → IsDirty svc
      → AllOf IsDirty (
          map_outcome (in_store svc) m >>= λ t.
          done (update_checksum hash owner fuel evict_fn tx (f t)))
  unfolding update_checksum
  summed-IsDirty m f tx svc keep d =
      AllOf-bind IsDirty IsDirty (map_outcome (in_store svc) m)
        (λ t. done (update_checksum hash owner fuel evict_fn tx (f t))) (λ t k. k)
        (store-IsDirty m svc d) keep

  told-IsDirty :
      (b : Batch) (t : Service) → IsDirty t → IsDirty (tell_listener hash owner fuel evict_fn b t)
  told-IsDirty b t d = elim (Bool-cases (b.owner == owner)) [ inl y ↦ rw y d | inr n ↦ rw n d ]

  put_found-IsDirty :
      (o : Option Batch) (depth_of : Batch → ℕ) (balance : ℕ) (tx : Bytes) (svc : Service)
      → IsDirty svc
      → AllOf IsDirty (put_found hash owner fuel evict_fn o depth_of balance tx svc)
  put_found-IsDirty none depth_of balance tx svc d = d
  put_found-IsDirty (some b) depth_of balance tx svc d =
      summed-IsDirty (put fuel b balance (depth_of b) svc.store) (λ t. t) tx svc (λ t k. k) d

  dispatch-IsDirty :
      (e : Option Event) (tx : Bytes) (svc : Service)
      → IsDirty svc
      → AllOf IsDirty (dispatch hash owner fuel evict_fn e tx svc)
  unfolding create top_up update_depth update_price
  dispatch-IsDirty none tx svc d = d
  dispatch-IsDirty (some (created id o balance depth bucket immutable)) tx svc d =
      let b : Batch = record {
        id = id;
        value = 0;
        start = svc.store.chain.block;
        owner = o;
        depth = depth;
        bucket_depth = bucket;
        immutable = immutable;
        radius = 0;
      } in
      let new = record b { value = balance } in
      summed-IsDirty (put fuel b balance depth svc.store)
        (tell_listener hash owner fuel evict_fn new) tx svc (told-IsDirty new) d
  dispatch-IsDirty (some (topped_up id balance)) tx svc d =
      put_found-IsDirty (get id svc.store) (λ b. b.depth) balance tx svc d
  dispatch-IsDirty (some (depth_increased id depth balance)) tx svc d =
      put_found-IsDirty (get id svc.store) (λ _. depth) balance tx svc d
  dispatch-IsDirty (some (price_updated price)) tx svc d =
      let new = record svc.store.chain { current_price = price } in
      summed-IsDirty (put_chain_state evict_fn new svc.store) (λ t. t) tx svc (λ t k. k) d

  pub block-IsDirty :
      (block : ℕ) (svc : Service)
      → IsDirty svc
      → AllOf IsDirty (update_block_number hash owner fuel evict_fn block svc)
  unfolding update_block_number
  block-IsDirty block svc d = elim (Bool-cases (block == svc.store.chain.block)) [
    | inl y ↦ rw y d
    | inr n ↦ rw n (
        store-IsDirty (put_chain_state evict_fn (next_chain block svc.store.chain) svc.store) svc d)
  ]

  pub all-IsDirty :
      (logs : List Log) (svc : Service)
      → IsDirty svc
      → AllOf IsDirty (process_all (updater hash owner fuel evict_fn) logs svc)
  unfolding process_all process_event
  all-IsDirty [] svc d = d
  all-IsDirty (log ∷ logs) svc d =
      let up = updater hash owner fuel evict_fn in
      AllOf-bind IsDirty IsDirty (update_block_number hash owner fuel evict_fn log.block svc)
        (λ t. process_event hash owner fuel evict_fn log t >>= process_all up logs) (λ t k. k)
        (block-IsDirty log.block svc d)
        (λ t k.
          AllOf-bind IsDirty IsDirty (process_event hash owner fuel evict_fn log t)
            (process_all up logs) (λ u l. l) (dispatch-IsDirty log.event log.tx_hash t k)
            (all-IsDirty logs))
