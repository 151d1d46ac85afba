-- ===== src/Accounting/Payments.antt =====
-- Payments, refreshments and the originated balance (pkg/accounting/accounting.go).
use sana.Common.{if◌then◌else◌, Bool, ◌≡◌, refl, [], arith, not_leb→lt, ltb→lt, subst}
use sana.Common.Int.{ℤ, pos, ◌+ℤ◌, ◌-ℤ◌, ◌≤ℤ◌, ◌<ℤ◌, max_zero, min_zero, ltb_ℤ, leb_ℤ, int_laws}
use sana.Accounting.State.{Env, Account, ok, Op, get_balance, get_originated, put_balance}
use sana.Accounting.Blocking.{or_zero}
use sana.Accounting.Spending.{credit, credit_originated}
use sana.Accounting.Debiting.{connect}
use sana.Accounting.Frames.{Ends, Post, bind-Post, if-Post, pure-Post, map-Post, both_ends}
use sana.Accounting.Bookkeeping.{
  net, Holds, Sane, get_balance-Post, get_surplus-Post, put_balance-Post, put_surplus-Post,
}
use sana.Accounting.Notices.{add_surplus, pay_off, notify_payment_sent, notify_payment_received}

-- A payment of `amount` is booked on a balance `b` and a surplus `s`.
abbrev Paid : ℤ → ℤ → ℤ → Account → Type 0
Paid b s amount t =
    (net t ≡ b -ℤ s -ℤ amount)
    × (or_zero t.balance ≡ (if leb_ℤ b (pos 0) then b else max_zero (b -ℤ amount)))

module _ (b s : ℤ) where
  add_surplus-Post : (z : ℤ) → Post Sane (Holds b s) (λ _. Holds b (s +ℤ z)) (add_surplus z)
  add_surplus-Post z =
      bind-Post (λ x t. (x ≡ s) × (pos 0 ≤ℤ s) × Holds b s t) (get_surplus-Post b s)
        λ x. record { run = λ u h. rw h.0 ((put_surplus-Post b s (s +ℤ z)).run u h.2) }

module _ (b s : ℤ) where
  pay_off-Post :
      (amount : ℤ) → pos 0 <ℤ b → Post Sane (Holds b s) (λ _. Paid b s amount) (pay_off b amount)
  pay_off-Post amount p =
      bind-Post (λ _. Holds (max_zero (b -ℤ amount)) s)
        (put_balance-Post b s (max_zero (b -ℤ amount)))
        λ _.
          if-Post (ltb_ℤ (b -ℤ amount) (pos 0))
            (λ e.
              map-Post (λ _. Holds (max_zero (b -ℤ amount)) (s +ℤ (amount -ℤ b)))
                (λ _ t h. rw (h.0, h.1) (grind (int_laws, ltb→lt _ _ e)))
                (add_surplus-Post (max_zero (b -ℤ amount)) s (amount -ℤ b)))
            (λ e. record { run = λ u h. rw (h.0, h.1) (grind int_laws) })

  notify_payment_received-Post :
      (amount : ℤ) → Post Sane (Holds b s) (λ _. Paid b s amount) (notify_payment_received amount)
  unfolding notify_payment_received
  notify_payment_received-Post amount =
      bind-Post (λ p t. (p.0 ≡ b) × Holds b s t) (get_balance-Post b s)
        λ p. record { run = λ u h. branch p.0 h.0 u h.1 }
    where
      branch :
          (z : ℤ)
          → z ≡ b
          → (u : Account) → Holds b s u
          → Ends Sane
              (λ _. Paid b s amount)
              ((if leb_ℤ z (pos 0) then add_surplus amount else pay_off z amount) u)
      branch z e u h = rw e (
          (if-Post (leb_ℤ b (pos 0))
              (λ k.
                map-Post (λ _. Holds b (s +ℤ amount))
                  (λ _ t h. rw (h.0, h.1, k) (omega int_laws, refl)) (add_surplus-Post b s amount))
              (λ k. pay_off-Post amount (not_leb→lt _ _ k))).run
            u h)

-- A received payment that is booked lowers the net balance by exactly its amount. The stored
-- balance does not move if the peer owed nothing, and else falls by the amount, but not below 0: no
-- payment puts us into debt. The amount may be any integer.
pub net-notify_payment_received :
    (amount : ℤ) (s : Account) {t : Account}
    → notify_payment_received amount s ≡ (ok tt, t)
    → (net t ≡ net s -ℤ amount)
      × (or_zero t.balance ≡ (
          if leb_ℤ (or_zero s.balance) (pos 0)
          then or_zero s.balance
          else max_zero (or_zero s.balance -ℤ amount)))
net-notify_payment_received amount s e =
    subst (Ends Sane (λ _. Paid _ _ amount)) e
      ((notify_payment_received-Post _ _ amount).run s (refl, refl))

-- The part of our debt that originates with us is no larger than the debt itself.
abbrev pub IsCovered : Account → Type 0
IsCovered s = min_zero (or_zero s.balance) ≤ℤ or_zero s.originated

abbrev Covers : {A : Type 0} → (Account → Type 0) → (A → Account → Type 0) → Op A → Type 0
Covers H P m = Post (λ _. IsCovered) H P m

read_balance-Covers : Covers IsCovered (λ p t. (p.0 ≡ or_zero t.balance) × IsCovered t) get_balance
unfolding get_balance
read_balance-Covers = record { run = λ u h. ground arith }

lower_balance-Covers :
    (old new : ℤ)
    → new ≤ℤ old
    → Covers
        (λ t. (old ≡ or_zero t.balance) × IsCovered t)
        (λ _ t. (new ≡ or_zero t.balance) × IsCovered t)
        (put_balance new)
lower_balance-Covers old new le = record { run = λ u h. ground arith }

credit_originated-Covers :
    (price new : ℤ)
    → Covers
        (λ t. (new ≡ or_zero t.balance) × IsCovered t)
        (λ _. IsCovered)
        (credit_originated price new)
unfolding get_originated
credit_originated-Covers price new = record { run = λ u h. ground arith }

credit-Covers :
    (price : ℤ) (is_originated : Bool)
    → pos 0 ≤ℤ price
    → Covers IsCovered (λ _. IsCovered) (credit price is_originated)
unfolding credit
credit-Covers price is_originated p =
    bind-Post (λ q t. (q.0 ≡ or_zero t.balance) × IsCovered t) read_balance-Covers
      λ q.
        bind-Post (λ _ t. (q.0 -ℤ price ≡ or_zero t.balance) × IsCovered t)
          (lower_balance-Covers q.0 (q.0 -ℤ price) (omega int_laws))
          λ _.
            if-Post is_originated (λ _. credit_originated-Covers price (q.0 -ℤ price))
              λ _. pure-Post λ u h. h.1

-- A credit of a price that is not negative keeps the originated debt covered, on every path: the
-- price originated or not, and whichever of the store accesses fails.
pub credit-IsCovered :
    (price : ℤ) (is_originated : Bool) (s : Account)
    → pos 0 ≤ℤ price
    → IsCovered s
    → IsCovered (credit price is_originated s).1
credit-IsCovered price is_originated s p h =
    both_ends IsCovered (credit-Covers price is_originated p) s h

-- So does the notice of a payment that was sent, or that failed.
pub notify_payment_sent-IsCovered :
    (env : Env) (amount : ℤ) (failed : Bool) (s : Account)
    → pos 0 ≤ℤ amount
    → s.faults ≡ []
    → IsCovered s
    → IsCovered (notify_payment_sent env amount failed s).1
unfolding notify_payment_sent
notify_payment_sent-IsCovered env amount failed s p c h = grind int_laws

-- Connecting resets the balance and the surplus, and leaves the originated balance as it was: if
-- that was below 0, it is no longer covered, and a settlement pays a debt that is not there.
pub connect-uncovered :
    (s : Account) → s.faults ≡ [] → or_zero s.originated <ℤ pos 0 → ¬ IsCovered (connect s).1
unfolding connect
connect-uncovered s c h k = ground arith
