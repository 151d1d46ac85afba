-- ===== src/Batchstore/Chain.antt =====
-- The operations of the store of batches with the chain state, and the queue of what is unreserved
-- (pkg/postage/batchstore/store.go, pkg/postage/batchstore/reserve.go). Whether the eviction of a
-- batch from the localstore succeeds is an argument.
use sana.Common.{
  ℕ, ◌+◌, ◌%◌, Bool, true, false, ◌&&◌, Option, none, some, List, [], ◌∷◌, ◌++◌, ltb, leb, ◌==◌,
  if◌then◌else◌,
}
use sana.Common.Int.{ℤ, pos, ◌+ℤ◌, ◌*ℤ◌, ltb_ℤ, leb_ℤ}
use sana.Common.Word.{u8_mod, wrap64}
use sana.Reserve.State.{ReserveState, new_state, exp2, sub8}
use sana.Common.Outcome.{Outcome, failed, done, ◌>>=◌}
use sana.Batchstore.State.{
  Batch, ChainState, Store, get, delete_key, set_batch, save_reserve, tell_radius, Unreserved,
  no_chain,
}

-- One round of delete.
abbrev pub delete_one : ℕ → Option Batch → (Store → Outcome Store) → Store → Outcome Store
delete_one id none k s = failed s
delete_one id (some b) k s =
    k (record s {
      values = delete_key (b.value, id) s.values;
      batches = set_batch id none s.batches;
    })

unfoldable pub delete : List ℕ → Store → Outcome Store
delete [] s = done s
delete (id ∷ ids) s = delete_one id (get id s) (delete ids) s

-- The limit up to which evictExpired collects.
unfoldable pub until_of : ReserveState → ChainState → ℤ
until_of rs cs =
    if ltb_ℤ (pos 0) rs.inner_limit && leb_ℤ rs.inner_limit (pos cs.total_amount)
    then pos (cs.total_amount + 1)
    else rs.inner_limit

-- The multiplier for a batch, from the one for the batch before.
unfoldable pub multiply : ReserveState → ℕ → ℕ → ℕ
multiply rs value m =
    let n = if m == 0 && leb_ℤ rs.inner_limit (pos value) then 1 else m in
    if n == 1 && leb_ℤ rs.outer_limit (pos value) then 2 else n

abbrev pub add_available : ℤ → Store → Store
add_available n s = record s {
  reserve = record s.reserve { available = wrap64 (s.reserve.available +ℤ n) };
}

-- The batches to delete, and the store or the error.
abbrev pub Spent : Type 0
Spent = List ℕ × Outcome Store

abbrev pub raise_limits : ℤ → Store → Store
raise_limits until s = record s {
  reserve = record s.reserve {
    inner_limit = until;
    outer_limit = if ltb_ℤ s.reserve.outer_limit until then until else s.reserve.outer_limit;
  };
}

abbrev pub finish_expired : ℤ → Spent → Outcome Store
finish_expired until (ids, end) = do s ← end; delete ids (save_reserve (raise_limits until s))

module _ (evict_fn : ℕ → Bool) where
  -- One key of the loop of evictExpired; `k` goes on with the next one.
  abbrev pub expire_key :
      ℤ → Option Batch → (ℕ → List ℕ → Store → Spent) → ℕ → List ℕ → Store → Spent
  expire_key until none k m ids s = (ids, failed s)
  expire_key until (some b) k m ids s =
      let n = multiply s.reserve b.value m in
      let noted = record s { evicted = s.evicted ++ b.id ∷ [] } in
      let size = wrap64 (pos n *ℤ exp2 (sub8 (sub8 b.radius s.reserve.radius) 1)) in
      let ids_now = if leb b.value s.chain.total_amount then ids ++ b.id ∷ [] else ids in
      if leb_ℤ until (pos b.value)
      then (ids, done s)
      else if evict_fn b.id
      then k n ids_now (add_available size noted)
      else (ids, failed noted)

  unfoldable pub expire_keys : ℤ → List (ℕ × ℕ) → ℕ → List ℕ → Store → Spent
  expire_keys until [] m ids s = (ids, done s)
  expire_keys until ((v, id) ∷ keys) m ids s =
      expire_key until (get id s) (expire_keys until keys) m ids s

  unfoldable pub evict_expired : Store → Outcome Store
  evict_expired s =
      let until = until_of s.reserve s.chain in
      finish_expired until (expire_keys until s.values 0 [] s)

  unfoldable pub put_chain_state : ChainState → Store → Outcome Store
  put_chain_state cs s = do
    t ← evict_expired (record s { chain = cs })
    let told = tell_radius t
    done (record told { saved_chain = some cs })

-- Reset deletes what the store has on the disk; the count of the queue stays in memory.
unfoldable pub reset : ℕ → Store → Store
reset start_block s = record s {
  batches = λ _. none;
  values = [];
  queue = [];
  saved_idx = none;
  saved_chain = none;
  saved_reserve = none;
  chain = no_chain start_block;
  reserve = new_state;
}

-- The storage radius after an item of the queue was unreserved.
abbrev pub lower_storage : ℕ → Store → Store
lower_storage radius s =
    if ltb ((s.reserve.storage_radius + 1) % u8_mod) radius
    then save_reserve (record s { reserve = record s.reserve { storage_radius = sub8 radius 1 } })
    else s

-- What the callback of Unreserve answers: an error, or whether to stop.
pub data Answer : Type 0 where
  error : Answer
  stop : Answer
  more : Answer

-- Unreserve: the loop over the items of the queue. Those for which the callback gave no error are
-- deleted from the queue when the loop is over, and the Boolean tells that it ended with no error.
unfoldable pub serve : (Unreserved → Answer) → List (ℕ × Unreserved) → Store → Bool × Store
serve cb [] s = (true, record s { queue = [] })
serve cb ((c, item) ∷ rest) s =
    let t = lower_storage item.1 s in
    elim (cb item) [
      | error ↦ (false, record s { queue = (c, item) ∷ rest })
      | stop ↦ (true, record t { queue = rest })
      | more ↦ serve cb rest t
    ]

abbrev pub unreserve_all : (Unreserved → Answer) → Store → Bool × Store
unreserve_all cb s = serve cb s.queue s
