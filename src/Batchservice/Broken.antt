-- ===== src/Batchservice/Broken.antt =====
-- Where a page of events fails, and the checksum that is saved then
-- (pkg/postage/batchservice/batchservice.go, pkg/syncer/syncer.go).
use sana.Common.{
  ℕ, ◌≡◌, refl, sym, ap, subst, ◌∙◌, Bool, Option, none, some, List, [], ◌∷◌, ◌++◌, ◌==◌, inl, inr,
  Bool-cases,
}
use sana.Common.Outcome.{
  Outcome, running, failed, done, ◌>>=◌, map_outcome, DoneOf, DoneOf-mono, DoneOf-bind, AllOf,
  AllOf-map, AllOf-any, bind_assoc, FailedOf, AllOf-FailedOf, FailedOf-bind, FailedOf-mono,
}
use sana.Batchstore.State.{Batch, ChainState, Store, put, get}
use sana.Batchstore.Chain.{put_chain_state}
use sana.Batchservice.State.{
  Bytes, Service, Event, created, topped_up, depth_increased, price_updated, Log, in_store,
  update_checksum, tell_listener, create, put_found, top_up, update_depth, update_price, next_chain,
  update_block_number, dispatch, process_event, updater, or_empty,
}
use sana.Batchservice.Chain.{
  after_block, after_event, sum_of, Agrees, update_block_number-Agrees, dispatch-Agrees,
}
use sana.Syncer.State.{process_all}

module _ (hash : Bytes → Bytes) (owner fuel : ℕ) (evict_fn : ℕ → Bool) where
  abbrev Same : Service → Service → Type 0
  Same svc t = t.saved_sum ≡ svc.saved_sum

  block-Same :
      (block : ℕ) (svc : Service)
      → AllOf (Same svc) (update_block_number hash owner fuel evict_fn block svc)
  unfolding update_block_number
  block-Same block svc = elim (Bool-cases (block == svc.store.chain.block)) [
    | inl y ↦ rw y refl
    | inr n ↦ rw n (
        AllOf-map (λ _. Unit {0}) (Same svc) (in_store svc)
          (put_chain_state evict_fn (next_chain block svc.store.chain) svc.store) (λ s u. refl)
          (AllOf-any (λ _. Unit {0})
            (put_chain_state evict_fn (next_chain block svc.store.chain) svc.store) (λ s. tt)))
  ]

  -- A call of the store that fails ends the event before the checksum is changed.
  stored-Same :
      (svc : Service) (m : Outcome Store) (f : Service → Service)
      → FailedOf (Same svc) (map_outcome (in_store svc) m >>= λ t. done (f t))
  stored-Same svc running f = tt
  stored-Same svc (failed s) f = refl
  stored-Same svc (done s) f = tt

  found-Same :
      (o : Option Batch) (depth_of : Batch → ℕ) (balance : ℕ) (tx : Bytes) (svc : Service)
      → FailedOf (Same svc) (put_found hash owner fuel evict_fn o depth_of balance tx svc)
  found-Same none depth_of balance tx svc = refl
  found-Same (some b) depth_of balance tx svc =
      stored-Same svc (put fuel b balance (depth_of b) svc.store)
        (update_checksum hash owner fuel evict_fn tx)

  dispatch-Same :
      (e : Option Event) (tx : Bytes) (svc : Service)
      → FailedOf (Same svc) (dispatch hash owner fuel evict_fn e tx svc)
  unfolding create top_up update_depth update_price
  dispatch-Same none tx svc = refl
  dispatch-Same (some (created id o balance depth bucket immutable)) tx svc =
      let b : Batch = record {
        id = id;
        value = 0;
        start = svc.store.chain.block;
        owner = o;
        depth = depth;
        bucket_depth = bucket;
        immutable = immutable;
        radius = 0;
      } in
      stored-Same svc (put fuel b balance depth svc.store) (λ t.
        update_checksum hash owner fuel evict_fn tx
          (tell_listener hash owner fuel evict_fn (record b { value = balance }) t))
  dispatch-Same (some (topped_up id balance)) tx svc =
      found-Same (get id svc.store) (λ b. b.depth) balance tx svc
  dispatch-Same (some (depth_increased id depth balance)) tx svc =
      found-Same (get id svc.store) (λ _. depth) balance tx svc
  dispatch-Same (some (price_updated price)) tx svc =
      stored-Same svc
        (put_chain_state evict_fn (record svc.store.chain { current_price = price }) svc.store)
        (update_checksum hash owner fuel evict_fn tx)

  -- The calls for one log.
  abbrev step : Log → Service → Outcome Service
  step log svc =
      update_block_number hash owner fuel evict_fn log.block svc
      >>= process_event hash owner fuel evict_fn log

  step-Same : (log : Log) (svc : Service) → FailedOf (Same svc) (step log svc)
  unfolding process_event
  step-Same log svc =
      FailedOf-bind (Same svc) (update_block_number hash owner fuel evict_fn log.block svc)
        (process_event hash owner fuel evict_fn log) (block-Same log.block svc)
        (λ t k.
          FailedOf-mono (Same t) (Same svc) (process_event hash owner fuel evict_fn log t)
            (λ u e h. h ∙ k) (dispatch-Same log.event log.tx_hash t))

  step-Agrees :
      (log : Log) (cs : ChainState) (w : Bytes) (svc : Service)
      → Agrees hash owner fuel evict_fn cs w svc
      → DoneOf
          (Agrees hash owner fuel evict_fn
            (after_event log.event (after_block log.block cs))
            (hash (w ++ log.tx_hash)))
          (step log svc)
  unfolding process_event
  step-Agrees log cs w svc a =
      let mid = after_block log.block cs in
      DoneOf-bind (Agrees hash owner fuel evict_fn mid w)
        (Agrees hash owner fuel evict_fn (after_event log.event mid) (hash (w ++ log.tx_hash)))
        (update_block_number hash owner fuel evict_fn log.block svc)
        (process_event hash owner fuel evict_fn log)
        (update_block_number-Agrees hash owner fuel evict_fn log.block cs w svc a)
        (dispatch-Agrees hash owner fuel evict_fn log.event log.tx_hash mid w)

  -- The next calls of a page: those for the first log that is left, or the last block.
  abbrev pub next_calls : ℕ → List Log → Service → Outcome Service
  next_calls to [] svc = update_block_number hash owner fuel evict_fn to svc
  next_calls to (log ∷ logs) svc = step log svc

  -- The page was begun and failed in `t`: after the logs before the failure were processed, the next calls
  -- fail, and the checksum that is saved is that of these logs.
  pub record IsBroken (to : ℕ) (logs : List Log) (w : Bytes) (begun t : Service) : Type 0 where
    pub before : List Log
    pub left : List Log
    pub logs_are : before ++ left ≡ logs
    pub reached : Service
    pub processed : process_all (updater hash owner fuel evict_fn) before begun ≡ done reached
    pub breaks : next_calls to left reached ≡ failed t
    pub sum_is : or_empty t.saved_sum ≡ sum_of hash owner fuel evict_fn before w

  abbrev pub events : ℕ → List Log → Service → Outcome Service
  events to logs svc =
      process_all (updater hash owner fuel evict_fn) logs svc
      >>= update_block_number hash owner fuel evict_fn to

  process_all-step :
      (log : Log) (logs : List Log) (svc : Service)
      → process_all (updater hash owner fuel evict_fn) (log ∷ logs) svc
        ≡ (step log svc >>= process_all (updater hash owner fuel evict_fn) logs)
  unfolding process_all
  process_all-step log logs svc = sym (
      bind_assoc (update_block_number hash owner fuel evict_fn log.block svc)
        (process_event hash owner fuel evict_fn log)
        (process_all (updater hash owner fuel evict_fn) logs))

  -- By how the first log ends, when the rest is known.
  first-IsBroken :
      (to : ℕ) (log : Log) (logs : List Log) (cs : ChainState) (w : Bytes) (svc : Service)
      (x : Outcome Service)
      → step log svc ≡ x
      → Agrees hash owner fuel evict_fn cs w svc
      → FailedOf (Same svc) x
      → DoneOf (λ u. FailedOf (IsBroken to logs (hash (w ++ log.tx_hash)) u) (events to logs u)) x
      → FailedOf (IsBroken to (log ∷ logs) w svc) (
          (x >>= process_all (updater hash owner fuel evict_fn) logs)
          >>= update_block_number hash owner fuel evict_fn to)
  unfolding process_all
  first-IsBroken to log logs cs w svc running e a f h = tt
  first-IsBroken to log logs cs w svc (failed t) e a f h = record {
    before = [];
    left = log ∷ logs;
    logs_are = refl;
    reached = svc;
    processed = refl;
    breaks = e;
    sum_is = ap or_empty f ∙ a.3;
  }
  first-IsBroken to log logs cs w svc (done u) e a f h =
      let up = updater hash owner fuel evict_fn in
      FailedOf-mono (IsBroken to logs (hash (w ++ log.tx_hash)) u) (IsBroken to (log ∷ logs) w svc)
        (events to logs u)
        (λ t q b. record {
          before = log ∷ b.before;
          left = b.left;
          logs_are = ap (λ l. log ∷ l) b.logs_are;
          reached = b.reached;
          processed =
              process_all-step log b.before svc
              ∙ ap (λ m. m >>= process_all up b.before) e
              ∙ b.processed;
          breaks = b.breaks;
          sum_is = b.sum_is;
        })
        h

  -- A page fails after some of its logs, with the checksum of these saved.
  pub events-IsBroken :
      (to : ℕ) (logs : List Log) (cs : ChainState) (w : Bytes) (svc : Service)
      → Agrees hash owner fuel evict_fn cs w svc
      → FailedOf (IsBroken to logs w svc) (events to logs svc)
  unfolding process_all
  events-IsBroken to [] cs w svc a =
      FailedOf-mono (Same svc) (IsBroken to [] w svc)
        (update_block_number hash owner fuel evict_fn to svc)
        (λ t q f. record {
          before = [];
          left = [];
          logs_are = refl;
          reached = svc;
          processed = refl;
          breaks = q;
          sum_is = ap or_empty f ∙ a.3;
        })
        (AllOf-FailedOf (Same svc) (update_block_number hash owner fuel evict_fn to svc)
          (block-Same to svc))
  events-IsBroken to (log ∷ logs) cs w svc a =
      let new = after_event log.event (after_block log.block cs) in
      let sum = hash (w ++ log.tx_hash) in
      let rest =
        DoneOf-mono (Agrees hash owner fuel evict_fn new sum)
          (λ u. FailedOf (IsBroken to logs sum u) (events to logs u)) (step log svc)
          (events-IsBroken to logs new sum) (step-Agrees log cs w svc a) in
      subst
        (λ m.
          FailedOf (IsBroken to (log ∷ logs) w svc)
            (m >>= update_block_number hash owner fuel evict_fn to))
        (sym (process_all-step log logs svc))
        (first-IsBroken to log logs cs w svc (step log svc) refl a (step-Same log svc) rest)
