-- ===== src/Batchservice/Restart.antt =====
-- What New finds after a page of events that ended, and after one that failed
-- (pkg/postage/batchservice/batchservice.go, pkg/syncer/syncer.go).
use sana.Common.{ℕ, ◌≡◌, refl, ap, subst, ◌∙◌, Bool, true, false, none, List, [], if◌then◌else◌}
use sana.Common.Outcome.{
  bind_assoc, FailedOf, Outcome, running, failed, done, ◌>>=◌, DoneOf, AllOf, AllOf-bind,
  DoneOf-bind,
}
use sana.Reserve.State.{new_state}
use sana.Batchstore.State.{ChainState, no_chain, reopen}
use sana.Batchstore.Chain.{reset}
use sana.Batchservice.State.{
  Bytes, Service, Log, update_block_number, updater, or_empty, new_service,
}
use sana.Batchservice.Chain.{
  after_block, after_logs, sum_of, Agrees, update_block_number-Agrees, process_all-Agrees,
}
use sana.Syncer.State.{process_all, run_page}
use sana.Batchservice.Broken.{IsBroken, events-IsBroken}
use sana.Batchservice.Dirty.{IsDirty, block-IsDirty, all-IsDirty}

module _ (hash : Bytes → Bytes) (owner fuel : ℕ) (evict_fn : ℕ → Bool) where
  -- A service whose store is that of Reset at a block.
  pub record IsReset (start_block : ℕ) (svc : Service) : Type 0 where
    pub no_keys : svc.store.values ≡ []
    pub no_batches : (id : ℕ) → svc.store.batches id ≡ none
    pub no_queue : svc.store.queue ≡ []
    pub chain_is : svc.store.chain ≡ no_chain start_block
    pub reserve_is : svc.store.reserve ≡ new_state
    pub clean : svc.dirty ≡ false

  -- How a page ends that began in `begun`, and what New finds: after one that is over, the chain state and
  -- the checksum that its logs give; after one that failed, a store that is reset, and the checksum of the
  -- logs before the failure. A page that runs out of fuel has not ended.
  abbrev pub PageEnd : ℕ → ℕ → List Log → ChainState → Bytes → Service → Outcome Service → Type 0
  PageEnd start_block to logs cs w begun running = Unit {0}
  PageEnd start_block to logs cs w begun (done t) =
      let again = new_service start_block t in
      let last = after_block to (after_logs logs cs) in
      let sum = sum_of hash owner fuel evict_fn logs w in
      (t.store.chain ≡ last)
      × (t.written ≡ sum)
      × (again.store.chain ≡ last)
      × (again.written ≡ sum)
      × (again.dirty ≡ false)
  PageEnd start_block to logs cs w begun (failed t) =
      let again = new_service start_block t in
      IsReset start_block again
      × ((b : IsBroken hash owner fuel evict_fn to logs w begun t) × (again.written
            ≡ sum_of hash owner fuel evict_fn b.before w))

  abbrev opened : Service → Service
  opened svc = record svc { store = reopen svc.store; written = or_empty svc.saved_sum }

  failed-PageEnd :
      (start_block : ℕ) (t : Service)
      → IsDirty t
      → IsReset start_block (new_service start_block t)
        × ((new_service start_block t).written ≡ or_empty t.saved_sum)
  unfolding new_service reopen reset
  failed-PageEnd start_block t d =
      let cleared = record (opened t) {
        store = reset start_block (opened t).store;
        dirty = false;
      } in
      let e : new_service start_block t ≡ cleared =
        ap (λ (q : Bool). if q then cleared else opened t) d in
      (
        record {
          no_keys = ap (λ (s : Service). s.store.values) e;
          no_batches = λ id. ap (λ (s : Service). s.store.batches id) e;
          no_queue = ap (λ (s : Service). s.store.queue) e;
          chain_is = ap (λ (s : Service). s.store.chain) e;
          reserve_is = ap (λ (s : Service). s.store.reserve) e;
          clean = ap (λ (s : Service). s.dirty) e;
        },
        ap (λ (s : Service). s.written) e,
      )

  -- The last call of a page, after the others.
  by_outcome :
      (start_block to : ℕ) (logs : List Log) (cs : ChainState) (w : Bytes) (begun : Service)
      (m : Outcome Service)
      → AllOf IsDirty m
      → DoneOf
          (Agrees hash owner fuel evict_fn
            (after_block to (after_logs logs cs))
            (sum_of hash owner fuel evict_fn logs w))
          m
      → FailedOf (IsBroken hash owner fuel evict_fn to logs w begun) m
      → PageEnd start_block to logs cs w begun (m >>= λ t. done (record t { dirty = false }))
  unfolding new_service reopen
  by_outcome start_block to logs cs w begun running d a b = tt
  by_outcome start_block to logs cs w begun (failed t) d a b =
      let (cleared, kept) = failed-PageEnd start_block t d in (cleared, (b, kept ∙ b.sum_is))
  by_outcome start_block to logs cs w begun (done t) d a b = (a.0, a.2, a.1, a.3, refl)

  -- A page of events, from a service whose chain state and checksum are saved: after one that is over, New
  -- finds the chain state and the checksum that the blocks and the logs give, whatever the batches are;
  -- after one that failed, at the calls for a log or at the last block, New resets the store to the start
  -- block, and keeps the checksum that the logs before those calls give.
  pub run_page-PageEnd :
      (start_block to : ℕ) (logs : List Log) (cs : ChainState) (w : Bytes) (svc : Service)
      → Agrees hash owner fuel evict_fn cs w svc
      → PageEnd start_block to logs cs w
          (record svc { dirty = true })
          (run_page (updater hash owner fuel evict_fn) to logs svc)
  unfolding run_page
  run_page-PageEnd start_block to logs cs w svc a =
      let up = updater hash owner fuel evict_fn in
      let begun = record svc { dirty = true } in
      let events = process_all up logs begun in
      let last = update_block_number hash owner fuel evict_fn to in
      let mid = after_logs logs cs in
      let sum = sum_of hash owner fuel evict_fn logs w in
      let Mid = Agrees hash owner fuel evict_fn mid sum in
      let End = Agrees hash owner fuel evict_fn (after_block to mid) sum in
      let d =
        AllOf-bind IsDirty IsDirty events last (λ t k. k)
          (all-IsDirty hash owner fuel evict_fn logs begun refl)
          (block-IsDirty hash owner fuel evict_fn to) in
      let e =
        DoneOf-bind Mid End events last
          (process_all-Agrees hash owner fuel evict_fn logs cs w begun a)
          (update_block_number-Agrees hash owner fuel evict_fn to mid sum) in
      subst (PageEnd start_block to logs cs w begun)
        (bind_assoc events last (λ t. done (record t { dirty = false })))
        (by_outcome start_block to logs cs w begun (events >>= last) d e
          (events-IsBroken hash owner fuel evict_fn to logs cs w begun a))
