-- ===== src/Accounting/Debiting.antt =====
-- What a peer spends with us: PrepareDebit, Apply and Cleanup of a debit action, and Disconnect
-- and Connect (pkg/accounting/accounting.go).
use sana.Common.{Bool, true, false, not, if◌then◌else◌}
use sana.Common.Int.{ℤ, pos, ◌+ℤ◌, ◌-ℤ◌, ltb_ℤ, leb_ℤ}
use sana.Accounting.State.{
  Config, Account, blocklisted, not_connected, sanity_check, no_balance, block_peer, Result, ok,
  err, Op, pure, raise, gets, ◌>>=◌, ◌>>◌, modify_peer, raise_if, when, logged, put_balance,
  put_surplus, get_balance, get_surplus,
}
use sana.Accounting.Blocking.{blocklist, blocklist_until, emit, duration, minute, seconds}
use sana.Accounting.Spending.{decrease_originated_to}

-- debitAction; its peer is the one whose account it runs on.
pub record DebitAction : Type 0 where
  pub price : ℤ
  pub applied : Bool

unfoldable pub prepare_debit : ℤ → Op DebitAction
prepare_debit price = do
  connected ← gets (λ s. s.connected)
  raise_if (not connected) not_connected
  modify_peer (λ p. record p { shadow_reserved = p.shadow_reserved +ℤ price })
  pure (record { price = price; applied = false })

-- `return a.Balance(peer)`: here the error ErrPeerNoBalance is passed on.
abbrev pub found_balance : ℤ × Bool → Op ℤ
found_balance (z, found) = if found then pure z else raise no_balance

abbrev pub add_to_balance : ℤ → Op ℤ
add_to_balance cost = do
  (balance, _) ← get_balance
  put_balance (balance +ℤ cost)
  logged (decrease_originated_to (balance +ℤ cost))
  pure (balance +ℤ cost)

-- The surplus pays the whole price, or all that it can.
abbrev pub draw_surplus : ℤ → ℤ → Op ℤ
draw_surplus price surplus =
    if leb_ℤ (pos 0) (surplus -ℤ price)
    then (do put_surplus (surplus -ℤ price); found_balance (← get_balance))
    else (do
      raise_if (leb_ℤ (price -ℤ surplus) (pos 0)) sanity_check
      put_surplus (pos 0)
      add_to_balance (price -ℤ surplus))

-- increaseBalance
unfoldable pub increase_balance : ℤ → Op ℤ
increase_balance price = do
  surplus ← get_surplus
  if ltb_ℤ (pos 0) surplus then draw_surplus price surplus else add_to_balance price

abbrev raise_block : Result ℤ × Account → Result (Unit {0}) × Account
raise_block (r, s) = (err (block_peer (duration minute r)), s)

-- Apply, after the balance is increased.
abbrev pub disconnect_above : Config → ℤ → Op (Unit {0})
disconnect_above c next =
    if leb_ℤ c.disconnect_limit next
    then (λ s. raise_block (blocklist_until c (pos 1) s))
    else pure tt

abbrev pub finish_debit :
    Config → DebitAction → Result ℤ × Account → Result (Unit {0}) × DebitAction × Account
finish_debit c d (err e, s) = (err e, d, s)
finish_debit c d (ok next, s) =
    let s' = record s { peer = record s.peer { shadow_reserved = s.shadow_reserved -ℤ d.price } } in
    let (r, s'') = disconnect_above c next s' in (r, record d { applied = true }, s'')

unfoldable pub apply : Config → DebitAction → Account → Result (Unit {0}) × DebitAction × Account
apply c d s = finish_debit c d (increase_balance d.price s)

-- Cleanup
unfoldable pub cleanup : Config → DebitAction → Op (Unit {0})
unfolding blocklist
cleanup c d = when (not d.applied) (do
  modify_peer
      (λ p. record p { shadow_reserved = p.shadow_reserved -ℤ d.price; ghost = p.ghost +ℤ d.price })
  ghost ← gets (λ s. s.ghost)
  when (ltb_ℤ c.disconnect_limit ghost) (blocklist c (pos 1)))

unfoldable pub connect : Op (Unit {0})
connect = do
  modify_peer
      (λ p. record p { connected = true; shadow_reserved = pos 0; ghost = pos 0; reserved = pos 0 })
  logged (put_balance (pos 0))
  logged (put_surplus (pos 0))

abbrev disconnect_connected : Config → Op (Unit {0})
disconnect_connected c s =
    let (r, s') = blocklist_until c (pos 1) s in
    let s'' = record s' { peer = record s'.peer { connected = false } } in
    (ok tt, emit (blocklisted (duration (seconds (pos 60)) r)) s'')

unfoldable pub disconnect : Config → Op (Unit {0})
unfolding blocklist_until
disconnect c = do connected ← gets (λ s. s.connected); when connected (disconnect_connected c)
