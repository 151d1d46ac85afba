-- ===== src/Batchservice/Tests.antt =====
-- A page of events for a service that starts anew (pkg/postage/batchservice/batchservice.go).
use sana.Common.{◌^◌, ◌≡◌, refl, true, false, none, some, List, [], ◌∷◌, take}
use sana.Common.Int.{pos}
use sana.Batchstore.State.{Store, no_chain}
use sana.Batchservice.State.{Bytes, Service, Log, created, topped_up, price_updated, updater}
use sana.Batchservice.Chain.{after_block, after_logs}
use sana.Batchservice.Restart.{PageEnd, run_page-PageEnd}
use sana.Syncer.State.{run_page}

abbrev fresh : Store
fresh = record {
  batches = λ _. none;
  values = [];
  queue = [];
  queue_idx = 0;
  chain = no_chain 0;
  reserve = record {
    radius = 12;
    storage_radius = 0;
    available = pos (2 ^ 22);
    outer_limit = pos 0;
    inner_limit = pos 0;
  };
  saved_chain = none;
  saved_reserve = none;
  saved_idx = none;
  evicted = [];
  told = none;
}

abbrev service : Service
service = record { store = fresh; written = []; saved_sum = none; dirty = false; handled = [] }

abbrev logs : List Log
logs =
    record { block = 3; tx_hash = 1 ∷ []; event = some (price_updated 2) }
    ∷ record { block = 5; tx_hash = 2 ∷ []; event = some (created 1 9 100 20 16 false) }
    ∷ record { block = 7; tx_hash = 3 ∷ []; event = some (topped_up 4 50) }
    ∷ []

abbrev last_two : Bytes → Bytes
last_two w = 0 ∷ take 2 w

-- The third event tops up a batch that is not there.
run_page-PageEnd_example :
    PageEnd last_two 9 3
      (λ _. true)
      1
      10
      logs
      (no_chain 0)
      []
      (record service { dirty = true })
      (run_page (updater last_two 9 3 (λ _. true)) 10 logs service)
run_page-PageEnd_example =
    run_page-PageEnd last_two 9 3 (λ _. true) 1 10 logs (no_chain 0) [] service
      (refl, refl, refl, refl)

two_blocks :
    after_block 10 (after_logs logs (no_chain 0))
    ≡ record { block = 10; total_amount = 14; current_price = 2 }
two_blocks = refl
