-- ===== src/Pseudosettle/Receiving.antt =====
-- What the handler grants a peer (pkg/settlement/pseudosettle/pseudosettle.go).
use sana.Common.{
  ◌≡◌, ◌≢◌, refl, ap, Bool, true, false, not, Option, none, some, if◌then◌else◌, arith, ◌⊎◌, inl,
  inr,
}
use sana.Common.Int.{ℤ, pos, ◌-ℤ◌, ◌*ℤ◌, eqb_ℤ}
use sana.Common.Word.{wrap64}
use sana.Pseudosettle.State.{
  LastPayment, Error, Result, failed, ok, or_new, least, peer_allowance, Request, Handled, payment,
  paid, handler, allowed, acknowledge, refused, after_ack, settlement_too_soon, store_failed,
  read_failed, no_pseudo_settle_peer, write_failed, accounting_failed,
}

-- What the clock allows the peer of the request.
abbrev pub by_time : ℤ → Request → Option LastPayment → ℤ
by_time rate r stored = wrap64 (r.now -ℤ (or_new stored).timestamp) *ℤ rate

-- How a run of the handler ends, by what it acknowledged.
abbrev pub Answers : ℤ → Request → Option LastPayment → Option (ℤ × ℤ) → Handled → Type 0
Answers rate r stored none h = (h.received ≡ stored) × (h.notified ≡ none) × (h.error ≢ none)
Answers rate r stored (some (amount, time)) h =
    (time ≡ r.now)
    × ((debt : ℤ) × (r.debt ≡ some debt)
        × (amount ≡ payment (least (by_time rate r stored) debt) (pos r.amount)))
    × (((h.received ≡ stored) × (h.notified ≡ none) × (h.error ≢ none))
        ⊎ ((h.received ≡ some (paid (or_new stored) amount time)) × (h.notified ≡ some amount)))

if-holds : {A : Type 0} → (P : A → Type 0) (b : Bool) (x y : A) → P x → P y → P (if b then x else y)
if-holds P true x y p q = p
if-holds P false x y p q = q

abbrev IsAnswer : ℤ → Request → Option LastPayment → Handled → Type 0
IsAnswer rate r stored h = Answers rate r stored h.ack h

refused-IsAnswer :
    (rate : ℤ) (r : Request) (stored : Option LastPayment) (e : Error)
    → IsAnswer rate r stored (refused e stored)
refused-IsAnswer rate r stored e = (refl, refl, λ q. ground arith)

-- What peer_allowance gives.
abbrev IsAllowance : ℤ → Request → Option LastPayment → Result (ℤ × ℤ) → Type 0
IsAllowance rate r stored (failed e) = Unit {0}
IsAllowance rate r stored (ok (allowance, time)) =
    (time ≡ r.now)
    × ((debt : ℤ) × (r.debt ≡ some debt) × (allowance ≡ least (by_time rate r stored) debt))

allowed-IsAllowance :
    (rate : ℤ) (r : Request) (stored : Option LastPayment) (o : Option ℤ)
    → r.debt ≡ o
    → IsAllowance rate r stored (allowed (by_time rate r stored) r.now o)
allowed-IsAllowance rate r stored none e = tt
allowed-IsAllowance rate r stored (some d) e = (refl, (d, e, refl))

peer_allowance-IsAllowance :
    (rate : ℤ) (r : Request) (stored : Option LastPayment)
    → IsAllowance rate r stored (peer_allowance rate r.now r.debt stored)
unfolding peer_allowance
peer_allowance-IsAllowance rate r stored =
    if-holds (IsAllowance rate r stored) (eqb_ℤ r.now (or_new stored).timestamp)
      (failed settlement_too_soon) (allowed (by_time rate r stored) r.now r.debt) tt
      (allowed-IsAllowance rate r stored r.debt refl)

acknowledge-IsAnswer :
    (rate : ℤ) (r : Request) (stored : Option LastPayment) (q : Result (ℤ × ℤ))
    → IsAllowance rate r stored q
    → IsAnswer rate r stored (acknowledge r stored q)
acknowledge-IsAnswer rate r stored (failed e) a = refused-IsAnswer rate r stored e
acknowledge-IsAnswer rate r stored (ok (allowance, time)) (t, (d, e, m)) =
    let amount = payment allowance (pos r.amount) in
    let next = paid (or_new stored) amount time in
    let granted : amount ≡ payment (least (by_time rate r stored) d) (pos r.amount) =
      ap (λ x. payment x (pos r.amount)) m in
    let P = IsAnswer rate r stored in
    let lost : P (after_ack (some store_failed) (amount, time) stored none) =
      (t, (d, e, granted), inl (refl, refl, λ q. ground arith)) in
    let done : Option Error → Handled =
      (λ err. after_ack err (amount, time) (some next) (some amount)) in
    let told = if r.notify_fails then done (some accounting_failed) else done none in
    let saved =
      if r.save_fails then after_ack (some store_failed) (amount, time) stored none else told in
    let loaded =
      if r.reload_fails then after_ack (some store_failed) (amount, time) stored none else saved in
    if-holds P r.write_fails (refused write_failed stored) loaded
      (refused-IsAnswer rate r stored write_failed)
      (if-holds P r.reload_fails (after_ack (some store_failed) (amount, time) stored none) saved
        lost
        (if-holds P r.save_fails (after_ack (some store_failed) (amount, time) stored none) told
          lost
          (if-holds P r.notify_fails (done (some accounting_failed)) (done none)
            (t, (d, e, granted), inr (refl, refl)) (t, (d, e, granted), inr (refl, refl)))))

-- The handler answers so on every path.
pub handler-Answers :
    (rate : ℤ) (r : Request) (stored : Option LastPayment)
    → Answers rate r stored (handler rate r stored).ack (handler rate r stored)
unfolding handler
handler-Answers rate r stored =
    let P = IsAnswer rate r stored in
    let answered = acknowledge r stored (peer_allowance rate r.now r.debt stored) in
    let loaded = if r.load_fails then refused store_failed stored else answered in
    let greeted = if not r.known then refused no_pseudo_settle_peer stored else loaded in
    if-holds P r.read_fails (refused read_failed stored) greeted
      (refused-IsAnswer rate r stored read_failed)
      (if-holds P (not r.known) (refused no_pseudo_settle_peer stored) loaded
        (refused-IsAnswer rate r stored no_pseudo_settle_peer)
        (if-holds P r.load_fails (refused store_failed stored) answered
          (refused-IsAnswer rate r stored store_failed)
          (acknowledge-IsAnswer rate r stored (peer_allowance rate r.now r.debt stored)
            (peer_allowance-IsAllowance rate r stored))))
