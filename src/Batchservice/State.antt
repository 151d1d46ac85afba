-- ===== src/Batchservice/State.antt =====
-- The service of batch events (pkg/postage/batchservice/batchservice.go). The hash function, the owner
-- of the node and the eviction of the localstore are arguments; an event is what the ABI gives.
use sana.Common.{
  ℕ, ◌+◌, ◌-◌, ◌*◌, ◌%◌, Bool, true, false, Option, none, some, List, [], ◌∷◌, ◌++◌, ◌==◌,
  if◌then◌else◌,
}
use sana.Common.Outcome.{Outcome, failed, done, ◌>>=◌, map_outcome}
use sana.Common.Word.{u64_mod}
use sana.Batchstore.State.{Batch, ChainState, Store, put, get, reopen}
use sana.Batchstore.Chain.{put_chain_state, reset}
use sana.Syncer.State.{Updater}

abbrev pub Bytes : Type 0
Bytes = List ℕ

-- The service and its entries of the state store: `written` is what the hasher was given since its
-- reset, and `handled` the batches that the listener was told of.
pub record Service : Type 0 where
  pub store : Store
  pub written : Bytes
  pub saved_sum : Option Bytes
  pub dirty : Bool
  pub handled : List Batch

pub data Event : Type 0 where
  created : ℕ → ℕ → ℕ → ℕ → ℕ → Bool → Event
  topped_up : ℕ → ℕ → Event
  depth_increased : ℕ → ℕ → ℕ → Event
  price_updated : ℕ → Event

-- A log: its block, the hash of its transaction, and the event, which may be unknown.
pub record Log : Type 0 where
  pub block : ℕ
  pub tx_hash : Bytes
  pub event : Option Event

abbrev pub in_store : Service → Store → Service
in_store svc s = record svc { store = s }

-- The blocks that went by, on uint64.
abbrev pub passed : ℕ → ℕ → ℕ
passed block was = (block + (u64_mod - was)) % u64_mod

abbrev pub next_chain : ℕ → ChainState → ChainState
next_chain block cs = record cs {
  block = block;
  total_amount = cs.total_amount + passed block cs.block * cs.current_price;
}

abbrev pub transaction_start : Service → Outcome Service
transaction_start svc = done (record svc { dirty = true })

abbrev pub transaction_end : Service → Outcome Service
transaction_end svc = done (record svc { dirty = false })

module _ (hash : Bytes → Bytes) (owner fuel : ℕ) (evict_fn : ℕ → Bool) where
  unfoldable pub update_checksum : Bytes → Service → Service
  update_checksum tx_hash svc =
      let sum = hash (svc.written ++ tx_hash) in record svc { written = sum; saved_sum = some sum }

  abbrev pub tell_listener : Batch → Service → Service
  tell_listener b svc =
      if b.owner == owner then record svc { handled = svc.handled ++ b ∷ [] } else svc

  -- Create, TopUp, UpdateDepth, UpdatePrice and UpdateBlockNumber.
  unfoldable pub create : ℕ → ℕ → ℕ → ℕ → ℕ → Bool → Bytes → Service → Outcome Service
  create id owner_ balance depth bucket_depth immutable tx_hash svc =
      let b : Batch = record {
        id = id;
        value = 0;
        start = svc.store.chain.block;
        owner = owner_;
        depth = depth;
        bucket_depth = bucket_depth;
        immutable = immutable;
        radius = 0;
      } in
      do
        t ← map_outcome (in_store svc) (put fuel b balance depth svc.store)
        done (update_checksum tx_hash (tell_listener (record b { value = balance }) t))

  abbrev pub put_found : Option Batch → (Batch → ℕ) → ℕ → Bytes → Service → Outcome Service
  put_found none depth_of balance tx_hash svc = failed svc
  put_found (some b) depth_of balance tx_hash svc = do
    t ← map_outcome (in_store svc) (put fuel b balance (depth_of b) svc.store)
    done (update_checksum tx_hash t)

  unfoldable pub top_up : ℕ → ℕ → Bytes → Service → Outcome Service
  top_up id balance tx_hash svc = put_found (get id svc.store) (λ b. b.depth) balance tx_hash svc

  unfoldable pub update_depth : ℕ → ℕ → ℕ → Bytes → Service → Outcome Service
  update_depth id depth balance tx_hash svc =
      put_found (get id svc.store) (λ _. depth) balance tx_hash svc

  unfoldable pub update_price : ℕ → Bytes → Service → Outcome Service
  update_price price tx_hash svc = do
    t ←
        map_outcome (in_store svc)
          (put_chain_state evict_fn (record svc.store.chain { current_price = price }) svc.store)
    done (update_checksum tx_hash t)

  unfoldable pub update_block_number : ℕ → Service → Outcome Service
  update_block_number block svc =
      if block == svc.store.chain.block
      then done svc
      else map_outcome (in_store svc)
          (put_chain_state evict_fn (next_chain block svc.store.chain) svc.store)

  abbrev pub dispatch : Option Event → Bytes → Service → Outcome Service
  dispatch none tx_hash svc = failed svc
  dispatch (some (created id owner_ balance depth bucket immutable)) tx_hash svc =
      create id owner_ balance depth bucket immutable tx_hash svc
  dispatch (some (topped_up id balance)) tx_hash svc = top_up id balance tx_hash svc
  dispatch (some (depth_increased id depth balance)) tx_hash svc =
      update_depth id depth balance tx_hash svc
  dispatch (some (price_updated price)) tx_hash svc = update_price price tx_hash svc

  unfoldable pub process_event : Log → Service → Outcome Service
  process_event log svc = dispatch log.event log.tx_hash svc

  -- The service as an updater of the syncer.
  abbrev pub updater : Updater Service Log
  updater = record {
    block_of = λ log. log.block;
    process_event = process_event;
    update_block_number = update_block_number;
    transaction_start = transaction_start;
    transaction_end = transaction_end;
  }

abbrev pub or_empty : Option Bytes → Bytes
or_empty none = []
or_empty (some b) = b

-- New, with the New of the store before it: from what the state store has.
unfoldable pub new_service : ℕ → Service → Service
new_service start_block svc =
    let opened = record svc { store = reopen svc.store; written = or_empty svc.saved_sum } in
    if svc.dirty
    then record opened { store = reset start_block opened.store; dirty = false }
    else opened
