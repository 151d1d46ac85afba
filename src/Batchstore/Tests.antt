-- ===== src/Batchstore/Tests.antt =====
-- A store with two batches (pkg/postage/batchstore), and the theorems at it.
use sana.Common.{
  ℕ, ◌-◌, ◌^◌, ◌≡◌, refl, true, false, none, some, [], ◌∷◌, ◌==◌, if◌then◌else◌, arith,
}
use sana.Common.Int.{leb_ℤ, pos, ◌+ℤ◌, ◌-ℤ◌, ◌*ℤ◌}
use sana.Common.Word.{wrap64}
use sana.Reserve.State.{exp2, double_times, change, set_limits, tier_of, size, radius_of}
use sana.Common.Outcome.{done}
use sana.Batchstore.State.{
  Batch, ChainState, Store, put, update, evict_outer, unreserve, reopen, no_chain,
}
use sana.Batchstore.Chain.{put_chain_state, Answer, error, more, serve}
use sana.Batchstore.Expired.{IsExpired, limit_for, put_chain_state-IsExpired}
use sana.Batchstore.Serving.{IsServed, serve-IsServed}
use sana.Batchstore.Saved.{changed_reserve, put-Unsaved}

abbrev batch : ℕ → ℕ → ℕ → Batch
batch id value depth = record {
  id = id;
  value = value;
  start = 0;
  owner = 5;
  depth = depth;
  bucket_depth = 16;
  immutable = false;
  radius = 0;
}

abbrev fresh : Store
fresh = record {
  batches = λ _. none;
  values = [];
  queue = [];
  queue_idx = 0;
  chain = no_chain 0;
  reserve = record {
    radius = 12;
    storage_radius = 0;
    available = pos (2 ^ 22);
    outer_limit = pos 0;
    inner_limit = pos 0;
  };
  saved_chain = none;
  saved_reserve = none;
  saved_idx = none;
  evicted = [];
  told = some 12;
}

-- The store after the first batch, of value 10 and depth 20.
abbrev first : Store
first = record fresh {
  batches = λ j. if j == 1 then some (batch 1 10 20) else none;
  values = (10, 1) ∷ [];
  queue = (1, (1, 11)) ∷ [];
  queue_idx = 1;
  saved_idx = some 1;
  reserve = record {
    radius = 12;
    storage_radius = 0;
    available = pos (2 ^ 22 - 256);
    outer_limit = pos 10;
    inner_limit = pos 10;
  };
}

first_stored : put 1 (batch 1 0 20) 10 20 fresh ≡ done first
unfolding put update unreserve evict_outer change set_limits tier_of size radius_of exp2
    double_times wrap64 ◌+ℤ◌ ◌-ℤ◌ ◌*ℤ◌
first_stored = refl

abbrev both : Store
both = record first {
  batches =
      λ j. if j == 1 then some (batch 1 10 20) else if j == 2 then some (batch 2 7 20) else none;
  values = (7, 2) ∷ (10, 1) ∷ [];
  reserve = record first.reserve {
    available = pos (2 ^ 22 - 512);
    outer_limit = pos 7;
    inner_limit = pos 7;
  };
}

abbrev later : ChainState
later = record { block = 100; total_amount = 8; current_price = 1 }

put_chain_state-IsExpired_example :
    (t : Store) × (put_chain_state (λ _. true) later both ≡ done t)
    × IsExpired both t 8 (limit_for 8 7)
    × ((reopen t).chain ≡ later)
    × ((reopen t).reserve ≡ t.reserve)
put_chain_state-IsExpired_example =
    put_chain_state-IsExpired (λ _. true) later both 7 (λ id. refl)
      (record {
        total_is = refl;
        inner_is = refl;
        inner_positive = omega arith;
        radius_positive = omega arith;
        radius_small = omega arith;
        not_above = omega arith;
        not_below = omega arith;
      })
      ((omega arith, tt), (tt, tt))
      ((batch 2 7 20, refl, refl, refl), ((batch 1 10 20, refl, refl, refl), tt))
      ((refl, tt), (tt, tt))

-- The callback fails for batch 2.
abbrev answers : ℕ × ℕ → Answer
answers (id, radius) = if id == 2 then error else more

serve-IsServed_example :
    IsServed answers
      ((1, (1, 11)) ∷ (2, (2, 12)) ∷ [])
      first
      (serve answers ((1, (1, 11)) ∷ (2, (2, 12)) ∷ []) first).1
      (serve answers ((1, (1, 11)) ∷ (2, (2, 12)) ∷ []) first).0
serve-IsServed_example =
    serve-IsServed answers ((1, (1, 11)) ∷ (2, (2, 12)) ∷ []) first (omega arith)
      (omega arith, (omega arith, tt))

capacity_left : leb_ℤ (pos 0) (changed_reserve (batch 1 0 20) 10 20 fresh).available ≡ true
unfolding change set_limits tier_of size radius_of exp2 double_times wrap64 unreserve ◌+ℤ◌ ◌-ℤ◌ ◌*ℤ◌
capacity_left = refl

-- After a restart the capacity that the first batch takes up is free again.
put-Unsaved_example :
    (t : Store) × (put 1 (batch 1 0 20) 10 20 fresh ≡ done t)
    × (t.reserve ≡ changed_reserve (batch 1 0 20) 10 20 fresh)
    × ((reopen t).reserve ≡ (reopen fresh).reserve)
    × ((reopen t).batches 1 ≡ some (batch 1 10 20))
put-Unsaved_example = put-Unsaved 0 (batch 1 0 20) 10 20 fresh capacity_left
