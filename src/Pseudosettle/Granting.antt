-- ===== src/Pseudosettle/Granting.antt =====
-- What a run of the handler grants and leaves, by what it meets
-- (pkg/settlement/pseudosettle/pseudosettle.go).
use sana.Common.{
  ◌≡◌, ◌≢◌, refl, sym, ◌∙◌, subst, Bool-cases, Bool, true, false, not, ◌||◌, Option, none, some,
  if◌then◌else◌, arith, ◌⊎◌, inl, inr,
}
use sana.Common.Int.{ℤ, pos, ◌+ℤ◌, ◌-ℤ◌, ◌*ℤ◌, ◌≤ℤ◌, eqb_ℤ, max_zero}
use sana.Common.Word.{wrap64}
use sana.Pseudosettle.State.{
  LastPayment, Error, or_new, least, peer_allowance, Request, Handled, payment, paid, handler,
  allowed, acknowledge, refused, after_ack, settlement_too_soon, store_failed, read_failed,
  no_pseudo_settle_peer, write_failed, accounting_failed,
}
use sana.Pseudosettle.Paying.{cases}

-- The record of a peer in parts: times and total are 0 before the first payment.
abbrev pub time_of : Option LastPayment → ℤ
time_of none = pos 0
time_of (some p) = p.timestamp

abbrev pub check_of : Option LastPayment → ℤ
check_of none = pos 0
check_of (some p) = p.check_timestamp

abbrev pub total_of : Option LastPayment → ℤ
total_of none = pos 0
total_of (some p) = p.total

abbrev pub is_none : Option ℤ → Bool
is_none none = true
is_none (some d) = false

-- Something keeps the handler from an acknowledgement: a failing access before it, an unknown peer, a
-- payment in this second, a debt that cannot be read, or an acknowledgement that cannot be sent.
abbrev pub hindered : Request → Option LastPayment → Bool
hindered r stored =
    r.read_fails
    || (not r.known
        || (r.load_fails || (eqb_ℤ r.now (time_of stored) || (is_none r.debt || r.write_fails))))

-- The amount is the largest that is within the request, the debt and what the time since the last payment
-- allows, or 0 if one of these is below 0.
pub record IsGranted (by_time debt asked amount : ℤ) : Type 0 where
  pub not_negative : pos 0 ≤ℤ amount
  pub within_request : amount ≤ℤ asked
  pub within_time : amount ≤ℤ max_zero by_time
  pub within_debt : amount ≤ℤ max_zero debt
  pub largest : (amount ≡ asked) ⊎ ((by_time ≤ℤ amount) ⊎ (debt ≤ℤ amount))

-- An access to the store failed after the acknowledgement, and nothing was changed or told.
abbrev pub IsLost : Request → Option LastPayment → Handled → Type 0
IsLost r stored h =
    (r.reload_fails || r.save_fails ≡ true)
    × (h.received ≡ stored)
    × (h.notified ≡ none)
    × (h.error ≡ some store_failed)

-- The record has the amount added and the time of the request, and the accounting was told of it.
abbrev pub IsRecorded : Request → Option LastPayment → ℤ → Handled → Type 0
IsRecorded r stored amount h =
    (r.reload_fails || r.save_fails ≡ false)
    × ((p : LastPayment) × (h.received ≡ some p)
        × (p.total ≡ total_of stored +ℤ amount)
        × (p.timestamp ≡ r.now)
        × (p.check_timestamp ≡ check_of stored))
    × (h.notified ≡ some amount)
    × (h.error ≡ (if r.notify_fails then some accounting_failed else none))

abbrev pub Fair : ℤ → Request → Option LastPayment → Option (ℤ × ℤ) → Handled → Type 0
Fair rate r stored none h =
    (hindered r stored ≡ true) × (h.received ≡ stored) × (h.notified ≡ none) × (h.error ≢ none)
Fair rate r stored (some (amount, time)) h =
    (hindered r stored ≡ false)
    × (time ≡ r.now)
    × ((debt : ℤ) × (r.debt ≡ some debt)
        × IsGranted (wrap64 (r.now -ℤ time_of stored) *ℤ rate) debt (pos r.amount) amount)
    × (IsLost r stored h ⊎ IsRecorded r stored amount h)

payment-IsGranted :
    (by_time debt : ℤ) (r : Request)
    → IsGranted by_time debt (pos r.amount) (payment (least by_time debt) (pos r.amount))
payment-IsGranted by_time debt r = record {
  not_negative = ground arith;
  within_request = ground arith;
  within_time = ground arith;
  within_debt = ground arith;
  largest = granted_largest by_time debt (pos r.amount) (omega arith);
}
  where
    granted_largest :
        (b d a : ℤ)
        → pos 0 ≤ℤ a
        → (payment (least b d) a ≡ a)
          ⊎ ((b ≤ℤ payment (least b d) a) ⊎ (d ≤ℤ payment (least b d) a))
    granted_largest b d a h = ground arith

new_time : (stored : Option LastPayment) → (or_new stored).timestamp ≡ time_of stored
new_time none = refl
new_time (some p) = refl

new_check : (stored : Option LastPayment) → (or_new stored).check_timestamp ≡ check_of stored
new_check none = refl
new_check (some p) = refl

new_total : (stored : Option LastPayment) → (or_new stored).total ≡ total_of stored
new_total none = refl
new_total (some p) = refl

module _ (rate : ℤ) (r : Request) (stored : Option LastPayment) where
  abbrev IsFair : Handled → Type 0
  IsFair h = Fair rate r stored h.ack h

  refused-IsFair : (e : Error) → hindered r stored ≡ true → IsFair (refused e stored)
  refused-IsFair e h = (h, refl, refl, λ q. ground arith)

  -- The end of the handler, when the acknowledgement was sent.
  module _ (d amount : ℤ) (debt : r.debt ≡ some d) (free : hindered r stored ≡ false)
      (granted : IsGranted (wrap64 (r.now -ℤ time_of stored) *ℤ rate) d (pos r.amount) amount) where
    lost-IsFair :
        r.reload_fails || r.save_fails ≡ true
        → IsFair (after_ack (some store_failed) (amount, r.now) stored none)
    lost-IsFair l = (free, refl, (d, debt, granted), inl (l, refl, refl, refl))

    told-IsFair :
        (e : Option Error)
        → r.reload_fails || r.save_fails ≡ false
        → e ≡ (if r.notify_fails then some accounting_failed else none)
        → IsFair
            (after_ack e (amount, r.now) (some (paid (or_new stored) amount r.now)) (some amount))
    told-IsFair e l n = (
      free,
      refl,
      (d, debt, granted),
      inr (
        l,
        (
          paid (or_new stored) amount r.now,
          refl,
          rw (new_total stored) refl,
          refl,
          new_check stored,
        ),
        refl,
        n,
      ),
    )

    sent-IsFair : IsFair (
        if r.reload_fails
        then after_ack (some store_failed) (amount, r.now) stored none
        else if r.save_fails
        then after_ack (some store_failed) (amount, r.now) stored none
        else if r.notify_fails
        then after_ack
            (some accounting_failed)
            (amount, r.now)
            (some (paid (or_new stored) amount r.now))
            (some amount)
        else after_ack none
            (amount, r.now)
            (some (paid (or_new stored) amount r.now))
            (some amount))
    sent-IsFair =
        let lost = after_ack (some store_failed) (amount, r.now) stored none in
        let end : Option Error → Handled = (λ e.
          after_ack e (amount, r.now) (some (paid (or_new stored) amount r.now)) (some amount)) in
        let told = if r.notify_fails then end (some accounting_failed) else end none in
        cases IsFair r.reload_fails lost (if r.save_fails then lost else told)
          (λ x. lost-IsFair (rw x refl))
          λ x.
            cases IsFair r.save_fails lost told (λ y. lost-IsFair (rw (x, y) refl))
              λ y.
                cases IsFair r.notify_fails (end (some accounting_failed)) (end none)
                  (λ z. told-IsFair (some accounting_failed) (rw (x, y) refl) (rw z refl))
                  λ z. told-IsFair none (rw (x, y) refl) (rw z refl)

  granted-IsFair :
      (o : Option ℤ)
      → r.debt ≡ o
      → (is_none o || r.write_fails ≡ hindered r stored)
      → IsFair (
          acknowledge r stored
            (allowed (wrap64 (r.now -ℤ (or_new stored).timestamp) *ℤ rate) r.now o))
  granted-IsFair none debt h = refused-IsFair accounting_failed (sym h)
  granted-IsFair (some d) debt h =
      let by_time = wrap64 (r.now -ℤ time_of stored) *ℤ rate in
      rw (new_time stored) (
        cases IsFair r.write_fails (refused write_failed stored) _
          (λ w. refused-IsFair write_failed (sym h ∙ w))
          λ w.
            sent-IsFair d (payment (least by_time d) (pos r.amount)) debt (sym h ∙ w)
              (payment-IsGranted by_time d r))

-- The handler acknowledges exactly if no access fails before, the peer is known, its last payment was not
-- in this second and its debt can be read: then the largest amount within the request, the debt and what
-- the time since the last payment allows, or 0 if one of these is below 0. The record grows by it and the accounting is told of it, unless an access to the
-- store failed after the acknowledgement. Without an acknowledgement nothing is changed or told, and there
-- is an error.
pub handler-Fair :
    (rate : ℤ) (r : Request) (stored : Option LastPayment)
    → Fair rate r stored (handler rate r stored).ack (handler rate r stored)
unfolding handler peer_allowance
handler-Fair rate r stored =
    let P = IsFair rate r stored in
    let by_time = wrap64 (r.now -ℤ (or_new stored).timestamp) *ℤ rate in
    let same = new_time stored in
    let answered = acknowledge r stored (peer_allowance rate r.now r.debt stored) in
    let loaded = if r.load_fails then refused store_failed stored else answered in
    let greeted = if not r.known then refused no_pseudo_settle_peer stored else loaded in
    cases P r.read_fails (refused read_failed stored) greeted
      (λ a. refused-IsFair rate r stored read_failed (rw a refl))
      λ a.
        cases P (not r.known) (refused no_pseudo_settle_peer stored) loaded
          (λ b. refused-IsFair rate r stored no_pseudo_settle_peer (rw (a, b) refl))
          λ b.
            cases P r.load_fails (refused store_failed stored) answered
              (λ c. refused-IsFair rate r stored store_failed (rw (a, b, c) refl))
              λ c. elim (Bool-cases (eqb_ℤ r.now (or_new stored).timestamp)) [
                | inl e ↦
                    let soon : eqb_ℤ r.now (time_of stored) ≡ true =
                      subst (λ t. eqb_ℤ r.now t ≡ true) same e in
                    rw e
                      (refused-IsFair rate r stored settlement_too_soon (rw (a, b, c, soon) refl))
                | inr n ↦
                    let due : eqb_ℤ r.now (time_of stored) ≡ false =
                      subst (λ t. eqb_ℤ r.now t ≡ false) same n in
                    rw n (granted-IsFair rate r stored r.debt refl (rw (a, b, c, due) refl))
              ]
