-- ===== src/Syncer/Catching.antt =====
-- The rounds of the worker up to the height of the chain (pkg/syncer/syncer.go).
use sana.Common.{
  ℕ, zero, suc, ◌+◌, ◌<◌, ◌≡◌, refl, ap, ◌∙◌, Bool, false, Option, some, List, ltb, if◌then◌else◌,
  inl, inr, Bool-cases, arith,
}
use sana.Common.Outcome.{done}
use sana.Syncer.State.{
  Updater, Sync, run_page, sync_page, catch_up, on_logs, after_page, page_end, is_more, block_page,
}

-- The next block after all up to the height were synchronized.
abbrev pub next_after : ℕ → ℕ → ℕ
next_after next height = if ltb height next then next else height + 1

module _ {S E : Type 0} (up : Updater S E) (logs : ℕ → ℕ → Option (List E)) (Keeps : S → Type 0)
    (events : ℕ → ℕ → List E) (found : (from to : ℕ) → logs from to ≡ some (events from to))
    (page : (from to : ℕ) (s : S)
      → Keeps s
      → (t : S) × (run_page up to (events from to) s ≡ done t) × Keeps t) where
  on_logs_lem :
      (to : ℕ) (l : List E) (s : Sync S) (t : S)
      → run_page up to l s.state ≡ done t
      → on_logs up to (some l) s ≡ done (record { next_block = to + 1; state = t })
  on_logs_lem to l s t e = ap (after_page up to s) e

  one_page :
      (height : ℕ) (s : Sync S)
      → Keeps s.state
      → (t : Sync S) × (sync_page up logs height s ≡ done t)
        × Keeps t.state
        × (t.next_block ≡ (
            if ltb height s.next_block then s.next_block else page_end up s.next_block height + 1))
  unfolding sync_page
  one_page height s k = elim (Bool-cases (ltb height s.next_block)) [
    | inl y ↦ (s, rw y refl, k, rw y refl)
    | inr n ↦
        let to = page_end up s.next_block height in
        let (t, e, l) = page s.next_block to s.state k in
        (
          record { next_block = to + 1; state = t },
          rw n (
              ap (λ o. on_logs up to o s) (found s.next_block to)
              ∙ on_logs_lem to (events s.next_block to) s t e),
          l,
          rw n refl,
        )
  ]

  one_round :
      (n height : ℕ) (s t : Sync S)
      → sync_page up logs height s ≡ done t
      → catch_up up (suc n) logs height s
        ≡ (if is_more up s.next_block height then catch_up up n logs height t else done t)
  unfolding catch_up
  one_round n height s t e = rw e refl

  -- With an updater that succeeds on each page, and with the logs of each range, the worker reaches the
  -- height after so many rounds as blocks are missing and one more, at most, and the next block is the
  -- one after it, or what it was when that is already above the height.
  pub catch_up-next_after :
      (n height : ℕ) (s : Sync S)
      → height < s.next_block + n
      → 0 < n
      → Keeps s.state
      → (t : Sync S) × (catch_up up n logs height s ≡ done t)
        × Keeps t.state
        × (t.next_block ≡ next_after s.next_block height)
  catch_up-next_after zero height s h z k = absurd (omega arith)
  catch_up-next_after (suc n) height s h z k =
      let (t, e, l, next) = one_page height s k in
      elim (Bool-cases (is_more up s.next_block height)) [
        | inl y ↦
            let far : s.next_block + block_page < height = ground arith in
            let step : t.next_block ≡ s.next_block + block_page + 1 =
              next ∙ (let a : ltb height s.next_block ≡ false = ground arith in rw (a, y) refl) in
            let (u, f, m, last) = catch_up-next_after n height t (omega arith) (omega arith) l in
            let a : ltb height s.next_block ≡ false = ground arith in
            let b : ltb height t.next_block ≡ false = ground arith in
            (
              u,
              one_round n height s t e
                  ∙ ap (λ (q : Bool). if q then catch_up up n logs height t else done t) y
                  ∙ f,
              m,
              last ∙ ends s.next_block t.next_block a b,
            )
        | inr m ↦ (
          t,
          one_round n height s t e
              ∙ ap (λ (q : Bool). if q then catch_up up n logs height t else done t) m,
          l,
          next
              ∙ ap
                  (λ (q : Bool).
                    if ltb height s.next_block
                    then s.next_block
                    else (if q then s.next_block + block_page else height) + 1)
                  m,
        )
      ]
    where
      ends :
          (x y : ℕ)
          → ltb height x ≡ false
          → ltb height y ≡ false
          → next_after y height ≡ next_after x height
      ends x y a b = rw (a, b) refl
