-- ===== src/Syncer/Tests.antt =====
-- The worker with an updater that keeps its blocks (pkg/syncer/syncer.go).
use sana.Common.{ℕ, ◌≡◌, refl, some, List, [], ◌∷◌, arith}
use sana.Common.Outcome.{done}
use sana.Syncer.State.{Updater, Sync, run_page, process_all, catch_up}
use sana.Syncer.Catching.{next_after, catch_up-next_after}

-- The events are block numbers.
abbrev keeper : Updater (List ℕ) ℕ
keeper = record {
  block_of = λ e. e;
  process_event = λ e s. done (e ∷ s);
  update_block_number = λ block s. done s;
  transaction_start = λ s. done s;
  transaction_end = λ s. done s;
}

abbrev ends_of : ℕ → ℕ → List ℕ
ends_of from to = from ∷ to ∷ []

keeper_runs :
    (from to : ℕ) (s : List ℕ)
    → Unit {0}
    → (t : List ℕ) × (run_page keeper to (ends_of from to) s ≡ done t) × Unit {0}
unfolding run_page process_all
keeper_runs from to s u = (to ∷ from ∷ s, refl, tt)

catch_up-next_after_example :
    (t : Sync (List ℕ)) × (catch_up keeper 3
        (λ from to. some (ends_of from to))
        9000
        (record { next_block = 8998; state = [] })
      ≡ done t)
    × Unit {0}
    × (t.next_block ≡ next_after 8998 9000)
catch_up-next_after_example =
    catch_up-next_after keeper (λ from to. some (ends_of from to)) (λ _. Unit {0}) ends_of
      (λ from to. refl) keeper_runs 3 9000 (record { next_block = 8998; state = [] }) (omega arith)
      (omega arith) tt
