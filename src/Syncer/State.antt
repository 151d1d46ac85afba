-- ===== src/Syncer/State.antt =====
-- The worker of the syncer (pkg/syncer/syncer.go), for one updater. The logs of a range of blocks, which
-- the chain client gives, are an argument.
use sana.Common.{
  ℕ, zero, suc, ◌+◌, ◌-◌, Bool, Option, none, some, List, [], ◌∷◌, ltb, if◌then◌else◌,
}
use sana.Common.Outcome.{Outcome, running, failed, done, ◌>>=◌}

abbrev pub block_page : ℕ
block_page = 5000

abbrev pub tail_size : ℕ
tail_size = 4

-- EventUpdater, for a state and a type of events with the number of their block.
pub record Updater (S E : Type 0) : Type 0 where
  pub block_of : E → ℕ
  pub process_event : E → S → Outcome S
  pub update_block_number : ℕ → S → Outcome S
  pub transaction_start : S → Outcome S
  pub transaction_end : S → Outcome S

-- What the worker keeps of one updater: the next block, and the state.
pub record Sync (S : Type 0) : Type 0 where
  pub next_block : ℕ
  pub state : S

module _ {S E : Type 0} (up : Updater S E) where
  unfoldable pub process_all : List E → S → Outcome S
  process_all [] s = done s
  process_all (e ∷ es) s = do
    t ← up.update_block_number (up.block_of e) s
    u ← up.process_event e t
    process_all es u

  -- The events of a page that ends with block `to`.
  unfoldable pub run_page : ℕ → List E → S → Outcome S
  run_page to events s = do
    t ← up.transaction_start s
    u ← process_all events t
    v ← up.update_block_number to u
    up.transaction_end v

  abbrev pub page_end : ℕ → ℕ → ℕ
  page_end next height = if ltb block_page (height - next) then next + block_page else height

  abbrev pub is_more : ℕ → ℕ → Bool
  is_more next height = ltb block_page (height - next)

  abbrev pub after_page : ℕ → Sync S → Outcome S → Outcome (Sync S)
  after_page to s running = running
  after_page to s (failed t) = failed (record s { state = t })
  after_page to s (done t) = done (record { next_block = to + 1; state = t })

  abbrev pub on_logs : ℕ → Option (List E) → Sync S → Outcome (Sync S)
  on_logs to none s = failed s
  on_logs to (some events) s = after_page to s (run_page to events s.state)

  -- One round of the worker at a height of the chain less the tail, and whether there is more.
  unfoldable pub sync_page : (ℕ → ℕ → Option (List E)) → ℕ → Sync S → Outcome (Sync S)
  sync_page logs height s =
      let to = page_end s.next_block height in
      if ltb height s.next_block then done s else on_logs to (logs s.next_block to) s

  -- The rounds of the worker while there is more, with the chain at one height, on fuel.
  unfoldable pub catch_up : ℕ → (ℕ → ℕ → Option (List E)) → ℕ → Sync S → Outcome (Sync S)
  catch_up zero logs height s = running
  catch_up (suc n) logs height s = do
    t ← sync_page logs height s
    let rest = catch_up n logs height t
    if is_more s.next_block height then rest else done t

-- The height up to which the worker synchronizes.
abbrev pub synced_height : ℕ → Option ℕ
synced_height height = if ltb height tail_size then none else some (height - tail_size)
