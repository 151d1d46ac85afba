-- ===== src/Accounting/Notices.antt =====
-- What accounting is told of: payments sent and received, refreshments received, and a new payment
-- threshold (pkg/accounting/accounting.go).
use sana.Common.{Bool, false, if◌then◌else◌}
use sana.Common.Int.{ℤ, pos, ◌+ℤ◌, ◌-ℤ◌, ltb_ℤ, leb_ℤ, max_zero}
use sana.Accounting.State.{
  Env, Op, ◌>>=◌, ◌>>◌, modify_peer, when, logged, put_balance, put_surplus, get_balance,
  get_surplus,
}
use sana.Accounting.Spending.{decrease_originated_by}

abbrev register_payment : ℤ → Op (Unit {0})
register_payment amount = do
  (balance, _) ← get_balance
  put_balance (balance +ℤ amount)
  logged (decrease_originated_by amount)

-- NotifyPaymentSent; `failed` says whether it was called with an error.
unfoldable pub notify_payment_sent : Env → ℤ → Bool → Op (Unit {0})
unfolding get_balance decrease_originated_by
notify_payment_sent env amount failed = do
  modify_peer
      (λ p. record p { payment_ongoing = false; shadow_reserved = p.shadow_reserved -ℤ amount })
  if failed
      then modify_peer (λ p. record p { last_failure = env.now })
      else logged (register_payment amount)

-- NotifyPaymentThreshold
unfoldable pub notify_payment_threshold : ℤ → Op (Unit {0})
notify_payment_threshold threshold = modify_peer (λ p. record p { payment_threshold = threshold })

abbrev pub add_surplus : ℤ → Op (Unit {0})
add_surplus amount = do surplus ← get_surplus; put_surplus (surplus +ℤ amount)

abbrev pub pay_off : ℤ → ℤ → Op (Unit {0})
pay_off balance amount = do
  put_balance (max_zero (balance -ℤ amount))
  when (ltb_ℤ (balance -ℤ amount) (pos 0)) (add_surplus (amount -ℤ balance))

-- NotifyPaymentReceived
unfoldable pub notify_payment_received : ℤ → Op (Unit {0})
notify_payment_received amount = do
  (balance, _) ← get_balance
  if leb_ℤ balance (pos 0) then add_surplus amount else pay_off balance amount

-- NotifyRefreshmentReceived
unfoldable pub notify_refreshment_received : ℤ → Op (Unit {0})
unfolding get_balance
notify_refreshment_received amount = do (balance, _) ← get_balance; put_balance (balance -ℤ amount)
