-- ===== src/Batchstore/State.antt =====
-- The store of batches (pkg/postage/batchstore/store.go, pkg/postage/batchstore/reserve.go). An id
-- stands for its 32 bytes as a number, and the index of values for its keys in order. Accesses to the
-- disk succeed; an entry may be missing.
use sana.Common.{
  ℕ, zero, suc, ◌+◌, ◌%◌, Bool, not, ◌&&◌, ◌||◌, Option, none, some, List, [], ◌∷◌, ◌++◌, ltb, ◌==◌,
  if◌then◌else◌,
}
use sana.Common.Int.{ℤ, pos, ◌+ℤ◌, ltb_ℤ, leb_ℤ, eqb_ℤ}
use sana.Common.Word.{u8_mod, u64_mod, wrap64}
use sana.Common.Outcome.{Outcome, running, failed, done, ◌>>=◌}
use sana.Reserve.State.{ReserveState, new_state, change, exp2, sub8, batch_radius}

pub record Batch : Type 0 where
  pub id : ℕ
  pub value : ℕ
  pub start : ℕ
  pub owner : ℕ
  pub depth : ℕ
  pub bucket_depth : ℕ
  pub immutable : Bool
  pub radius : ℕ

pub record ChainState : Type 0 where
  pub block : ℕ
  pub total_amount : ℕ
  pub current_price : ℕ

-- A batch to unreserve, with the bins below this radius.
abbrev pub Unreserved : Type 0
Unreserved = ℕ × ℕ

-- The store with what the disk has: the batches by id, the keys by value, and the saved states.
-- `evicted` has the calls of evictFn, and `told` the radius that a radius setter has, if there is one.
pub record Store : Type 0 where
  pub batches : ℕ → Option Batch
  pub values : List (ℕ × ℕ)
  pub queue : List (ℕ × Unreserved)
  pub queue_idx : ℕ
  pub chain : ChainState
  pub reserve : ReserveState
  pub saved_chain : Option ChainState
  pub saved_reserve : Option ReserveState
  pub saved_idx : Option ℕ
  pub evicted : List ℕ
  pub told : Option ℕ

abbrev pub no_chain : ℕ → ChainState
no_chain block = record { block = block; total_amount = 0; current_price = 0 }

abbrev pub or_else {ℓ} : {A : Type ℓ} → Option A → A → A
or_else none d = d
or_else (some a) d = a

-- New on the disk of a store.
unfoldable pub reopen : Store → Store
reopen s = record s {
  chain = or_else s.saved_chain (no_chain 0);
  reserve = or_else s.saved_reserve new_state;
  queue_idx = or_else s.saved_idx 0;
}

abbrev pub with_radius : ReserveState → Option Batch → Option Batch
with_radius rs none = none
with_radius rs (some b) = some (record b { radius = batch_radius rs (pos b.value) })

unfoldable pub get : ℕ → Store → Option Batch
get id s = with_radius s.reserve (s.batches id)

abbrev pub same_key : ℕ × ℕ → ℕ × ℕ → Bool
same_key (v, i) (w, j) = v == w && i == j

abbrev pub before_key : ℕ × ℕ → ℕ × ℕ → Bool
before_key (v, i) (w, j) = ltb v w || v == w && ltb i j

-- Deletion and insertion of a key in the order of the keys.
abbrev pub delete_key : ℕ × ℕ → List (ℕ × ℕ) → List (ℕ × ℕ)
delete_key k [] = []
delete_key k (j ∷ js) = if same_key j k then js else j ∷ delete_key k js

abbrev pub insert_key : ℕ × ℕ → List (ℕ × ℕ) → List (ℕ × ℕ)
insert_key k [] = k ∷ []
insert_key k (j ∷ js) =
    if same_key j k then k ∷ js else if before_key k j then k ∷ j ∷ js else j ∷ insert_key k js

abbrev pub set_batch : ℕ → Option Batch → (ℕ → Option Batch) → ℕ → Option Batch
set_batch id b m j = if j == id then b else m j

unfoldable pub unreserve : ℕ → ℕ → Store → Store
unreserve id radius s =
    let c = (s.queue_idx + 1) % u64_mod in
    record s { queue = s.queue ++ (c, (id, radius)) ∷ []; saved_idx = some c; queue_idx = c }

-- The capacity that a batch gives back, and the new outer limit.
abbrev pub take_outer : Batch → Store → Store
take_outer b s = record s {
  reserve = record s.reserve {
    available = wrap64 (s.reserve.available +ℤ exp2 (sub8 (sub8 b.depth s.reserve.radius) 1));
    outer_limit = pos b.value;
  };
}

-- One key of the loop of evictOuter; `k` goes on with the next one.
abbrev pub evict_key : Option Batch → (Store → Outcome Store) → Store → Outcome Store
evict_key none k s = failed s
evict_key (some b) k s =
    if ltb_ℤ (pos b.value) s.reserve.outer_limit
    then k s
    else if leb_ℤ (pos 0) s.reserve.available && not (eqb_ℤ s.reserve.outer_limit (pos b.value))
    then done s
    else k (unreserve b.id s.reserve.radius (take_outer b s))

abbrev pub batch_at : Batch → ℕ → Store → Option Batch
batch_at last id s = if last.id == id then some last else get id s

unfoldable pub evict_keys : Batch → List (ℕ × ℕ) → Store → Outcome Store
evict_keys last [] s = done s
evict_keys last ((v, id) ∷ keys) s = evict_key (batch_at last id s) (evict_keys last keys) s

abbrev pub raise_outer : Store → Store
raise_outer s = record s {
  reserve = record s.reserve { outer_limit = s.reserve.outer_limit +ℤ pos 1 };
}

abbrev pub deepen : Store → Store
deepen s = record s {
  reserve = record s.reserve {
    radius = (s.reserve.radius + 1) % u8_mod;
    outer_limit = s.reserve.inner_limit;
  };
}

abbrev pub save_reserve : Store → Store
save_reserve s = record s { saved_reserve = some s.reserve }

unfoldable pub evict_outer : ℕ → Batch → Store → Outcome Store
evict_outer zero last s = running
evict_outer (suc n) last s = if leb_ℤ (pos 0) s.reserve.available then done s else do
  t ← evict_keys last s.values s
  let again = evict_outer n last (deepen (raise_outer t))
  if ltb_ℤ t.reserve.available (pos 0) then again else done (save_reserve (raise_outer t))

abbrev pub take_change : (ℤ × ℕ) × ReserveState → ℕ → Store → Store
take_change ((more, radius), limits) id s =
    unreserve id radius
      (record s { reserve = record limits { available = wrap64 (limits.available +ℤ more) } })

unfoldable pub update : ℕ → Batch → ℕ → ℕ → Store → Outcome Store
update fuel b old_depth old_value s =
    evict_outer fuel b
      (take_change (change s.reserve (pos old_value) (pos b.value) old_depth b.depth) b.id s)

abbrev pub tell_radius : Store → Store
tell_radius s = record s { told = elim s.told [ none ↦ none | some r ↦ some s.reserve.radius ] }

-- Put, on fuel for evictOuter.
unfoldable pub put : ℕ → Batch → ℕ → ℕ → Store → Outcome Store
put fuel b value depth s =
    let new = record b { value = value; depth = depth } in
    let keys = insert_key (value, b.id) (delete_key (b.value, b.id) s.values) in
    do
      t ← update fuel new b.depth b.value (record s { values = keys })
      let told = tell_radius t
      done (record told { batches = set_batch b.id (some new) told.batches })
