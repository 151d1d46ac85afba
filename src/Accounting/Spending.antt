-- ===== src/Accounting/Spending.antt =====
-- What we spend with a peer: Reserve, Release, Credit and settle (pkg/accounting/accounting.go).
use sana.Common.{Bool, true, not, ◌&&◌, Option, none, some, if◌then◌else◌}
use sana.Common.Int.{ℤ, pos, ◌+ℤ◌, ◌-ℤ◌, ltb_ℤ, leb_ℤ, max_zero, min_zero}
use sana.Common.Word.{wrap64}
use sana.Accounting.State.{
  Config, Env, Account, pay, refresh_failure, settle_failure, not_connected, overdraft,
  failed_settlement_interval, Result, ok, err, Op, pure, raise, gets, ◌>>=◌, ◌>>◌, modify,
  modify_peer, raise_if, when, put_balance, put_originated, get_balance, get_originated,
  get_surplus, compensated_balance,
}
use sana.Accounting.Blocking.{shadow_balance, blocklist, emit}

-- getIncreasedExpectedDebt: the debt once all that is reserved is credited, with the price and the
-- surplus in it, and the current balance.
unfoldable pub expected_debt : ℤ → Op (ℤ × ℤ)
unfolding get_balance get_surplus
expected_debt price = do
  reserved ← gets (λ s. s.reserved)
  (balance, _) ← get_balance
  surplus ← get_surplus
  pure (max_zero (pos 0 -ℤ balance) +ℤ (reserved +ℤ price) +ℤ surplus, balance)

-- decreaseOriginatedBalanceTo
unfoldable pub decrease_originated_to : ℤ → Op (Unit {0})
unfolding get_originated
decrease_originated_to limit = do
  (originated, _) ← get_originated
  when (ltb_ℤ originated (min_zero limit)) (put_originated (min_zero limit))

-- decreaseOriginatedBalanceBy
unfoldable pub decrease_originated_by : ℤ → Op (Unit {0})
unfolding get_originated
decrease_originated_by amount = do
  (originated, _) ← get_originated
  put_originated (originated +ℤ amount)

abbrev pub register_refresh : Config → ℤ → Option (ℤ × ℤ) → Op (Unit {0})
register_refresh c old none = do blocklist c (pos 1); raise refresh_failure
register_refresh c old (some (accepted, timestamp)) = do
  modify_peer (λ p. record p { refresh_timestamp = timestamp })
  put_balance (old +ℤ accepted)
  decrease_originated_to (old +ℤ accepted)

-- The part of settle that settles by time.
unfoldable pub refresh_debt : Config → Env → ℤ → ℤ → Op (Unit {0})
refresh_debt c env old amount = do
  shadow ← shadow_balance
  register_refresh c old (env.refresh amount shadow)

-- The part of settle that starts a payment.
unfoldable pub start_payment : Config → Op (Unit {0})
unfolding get_originated
start_payment c = do
  (originated, _) ← get_originated
  let amount = pos 0 -ℤ originated
  when (leb_ℤ c.minimum_payment amount) (
      modify_peer
        (λ p. record p { payment_ongoing = true; shadow_reserved = p.shadow_reserved +ℤ amount })
      >> modify (emit (pay amount)))

-- A payment is started if none is under way and the last failure is long enough ago.
unfoldable pub pay_if_due : Config → Env → Op (Unit {0})
pay_if_due c env = do
  ongoing ← gets (λ s. s.payment_ongoing)
  since ← gets (λ s. wrap64 (env.now -ℤ s.last_failure))
  when (c.has_pay_function && not ongoing && ltb_ℤ failed_settlement_interval since)
      (start_payment c)

-- `elapsed` is the time since the last refreshment.
unfoldable pub refresh_if_due : Config → Env → ℤ → ℤ → ℤ → Op (Unit {0})
refresh_if_due c env elapsed old amount =
    when (ltb_ℤ (pos 0) amount && ltb_ℤ (pos 0) elapsed) (refresh_debt c env old amount)

unfoldable pub settle : Config → Env → Op (Unit {0})
settle c env = do
  elapsed ← gets (λ s. wrap64 (env.now -ℤ s.refresh_timestamp))
  (old, _) ← get_balance
  compensated ← compensated_balance
  refresh_if_due c env elapsed old (pos 0 -ℤ compensated)
  pay_if_due c env

-- `fmt.Errorf("failed to settle with peer %v: %v", ...)`, which does not wrap the inner error.
abbrev pub settled_or_raise : Result (Unit {0}) × Account → Result (Unit {0}) × Account
settled_or_raise (ok _, s) = (ok tt, s)
settled_or_raise (err e, s) = (err settle_failure, s)

-- The threshold at which a settlement is tried.
abbrev pub early_threshold : ℤ → ℤ → ℤ
early_threshold threshold early = if ltb_ℤ early threshold then threshold -ℤ early else pos 0

abbrev pub settle_again : Config → Env → ℤ → Op ℤ
settle_again c env price = do
  (λ s. settled_or_raise (settle c env s))
  (again, _) ← expected_debt price
  pure again

abbrev pub settle_if_needed : Config → Env → ℤ → ℤ × ℤ → Op ℤ
settle_if_needed c env price (debt, balance) = do
  early ← gets (λ s. early_threshold s.payment_threshold c.early_payment)
  shadow ← gets (λ s. s.shadow_reserved)
  if leb_ℤ early (debt -ℤ shadow) && ltb_ℤ balance (pos 0)
      then settle_again c env price
      else pure debt

-- The end of Reserve, by the last expected debt.
unfoldable pub finish_reserve : ℤ → ℤ → Op (Unit {0})
finish_reserve price debt = do
  threshold ← gets (λ s. s.payment_threshold)
  raise_if (ltb_ℤ threshold debt) overdraft
  modify_peer (λ p. record p { reserved = p.reserved +ℤ price })

unfoldable pub reserve : Config → Env → ℤ → Op (Unit {0})
reserve c env price = do
  connected ← gets (λ s. s.connected)
  raise_if (not connected) not_connected
  first ← expected_debt price
  debt ← settle_if_needed c env price first
  finish_reserve price debt

-- Release: more than is reserved leaves 0.
unfoldable pub release : ℤ → Op (Unit {0})
release price =
    modify_peer
      (λ p. record p { reserved = if ltb_ℤ p.reserved price then pos 0 else p.reserved -ℤ price })

abbrev pub credit_originated : ℤ → ℤ → Op (Unit {0})
credit_originated price next = do
  (originated, _) ← get_originated
  let floor = min_zero next
  let next_originated = originated -ℤ price
  put_originated (if ltb_ℤ next_originated floor then floor else next_originated)

unfoldable pub credit : ℤ → Bool → Op (Unit {0})
unfolding get_balance get_originated
credit price is_originated = do
  (balance, _) ← get_balance
  let next = balance -ℤ price
  put_balance next
  when is_originated (credit_originated price next)
