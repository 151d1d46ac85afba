-- ===== src/Accounting/Tests.antt =====
-- Concrete accounts, the theorems at them, and runs.
use sana.Common.{true, false, none, some, ◌≡◌, if◌then◌else◌, refl, [], ◌∷◌}
use sana.Common.Int.{pos, negsuc, ◌+ℤ◌, ◌-ℤ◌, ◌≤ℤ◌, ◌<ℤ◌, ◌/ℤ◌, max_zero, leb_ℤ}
use sana.Common.Word.{wrap64}
use sana.Accounting.State.{
  Config, Env, Account, AccountingPeer, Error, store_failure, ok, err, new_accounting,
  set_pay_function, overdraft, get_balance, get_surplus, get_originated, compensated_balance,
}
use sana.Accounting.Blocking.{shadow_balance, or_zero}
use sana.Accounting.Spending.{
  reserve, expected_debt, settle, refresh_if_due, refresh_debt, pay_if_due, start_payment,
  finish_reserve, decrease_originated_to,
}
use sana.Accounting.Debiting.{DebitAction, prepare_debit, increase_balance}
use sana.Accounting.Notices.{notify_payment_received}
use sana.Accounting.Frames.{Keeps}
use sana.Accounting.Bookkeeping.{net, left_over, net-increase_balance}
use sana.Accounting.Payments.{net-notify_payment_received}
use sana.Accounting.Reserving.{debt_with, reserve_within_threshold, reserve_refused}

abbrev config : Config
config = set_pay_function (new_accounting (pos 1000) (pos 100) (pos 200) (pos 50))

-- The peer accepts up to 300 at time 7.
abbrev env : Env
env = record { now = pos 7; refresh = λ amount shadow. some (pos 300, pos 7) }

abbrev peer : AccountingPeer
peer = record {
  reserved = pos 10;
  shadow_reserved = pos 0;
  ghost = pos 0;
  payment_threshold = pos 1000;
  refresh_timestamp = pos 5;
  payment_ongoing = false;
  last_failure = pos 0;
  connected = true;
}

-- We owe 700, of which 500 originate with us.
abbrev indebted : Account
indebted = record {
  peer = peer;
  balance = some (negsuc 699);
  surplus = some (pos 20);
  originated = some (negsuc 499);
  faults = [];
  events = [];
}

-- The reservation settles by time first, which pays 300.
abbrev settled : Account
settled = record indebted {
  peer = record peer { reserved = pos 160; refresh_timestamp = pos 7 };
  balance = some (negsuc 399);
  originated = some (negsuc 399);
}

reserve_settles : reserve config env (pos 150) indebted ≡ (ok tt, settled)
unfolding reserve expected_debt settle refresh_if_due refresh_debt pay_if_due finish_reserve
    start_payment get_balance get_surplus get_originated compensated_balance shadow_balance
    decrease_originated_to set_pay_function new_accounting wrap64 ◌+ℤ◌ ◌-ℤ◌ ◌/ℤ◌
reserve_settles = refl

reserve_within_threshold_example :
    (debt_with (pos 0) settled ≤ℤ pos 1000)
    × (pos 160 ≡ pos 10 +ℤ pos 150)
    × (pos 1000 ≡ pos 1000)
    × (true ≡ true)
reserve_within_threshold_example =
    reserve_within_threshold config env (pos 150) indebted reserve_settles

-- At a time when nothing can be refreshed the same price is refused.
abbrev late : Env
late = record { now = pos 5; refresh = λ amount shadow. none }

reserve_refused_run : reserve config late (pos 300) indebted ≡ (err overdraft, indebted)
unfolding reserve expected_debt settle refresh_if_due pay_if_due finish_reserve get_balance
    get_surplus compensated_balance set_pay_function new_accounting wrap64 ◌+ℤ◌ ◌-ℤ◌ ◌/ℤ◌
reserve_refused_run = refl

reserve_refused_example :
    Keeps indebted indebted
    × (◌≡◌ {A = Error} overdraft overdraft → pos 1000 <ℤ debt_with (pos 300) indebted)
reserve_refused_example = reserve_refused config late (pos 300) indebted reserve_refused_run

-- The surplus of 20 pays a part of the price 50.
abbrev drawn : Account
drawn = record indebted { balance = some (negsuc 669); surplus = some (pos 0) }

increase_balance_run : increase_balance (pos 50) indebted ≡ (ok (negsuc 669), drawn)
unfolding increase_balance get_balance get_surplus get_originated decrease_originated_to ◌+ℤ◌ ◌-ℤ◌
increase_balance_run = refl

net-increase_balance_example :
    (net drawn ≡ net indebted +ℤ pos 50)
    × (pos 0 ≤ℤ pos 0)
    × (negsuc 669 ≡ negsuc 669)
    × (or_zero drawn.surplus ≡ left_over (pos 50) (or_zero indebted.surplus))
net-increase_balance_example = net-increase_balance (pos 50) indebted increase_balance_run

-- The first store access fails.
abbrev faulty : Account
faulty = record indebted { faults = true ∷ [] }

increase_balance_fails : increase_balance (pos 50) faulty ≡ (err store_failure, indebted)
unfolding increase_balance get_surplus
increase_balance_fails = refl

-- A peer that owes 30 pays 50.
abbrev owing : Account
owing = record indebted { balance = some (pos 30) }

abbrev paid : Account
paid = record indebted { balance = some (pos 0); surplus = some (pos 40) }

notify_payment_received_run : notify_payment_received (pos 50) owing ≡ (ok tt, paid)
unfolding notify_payment_received get_balance get_surplus ◌+ℤ◌ ◌-ℤ◌
notify_payment_received_run = refl

net-notify_payment_received_example :
    (net paid ≡ net owing -ℤ pos 50)
    × (pos 0 ≡ (
        if leb_ℤ (or_zero owing.balance) (pos 0)
        then or_zero owing.balance
        else max_zero (or_zero owing.balance -ℤ pos 50)))
net-notify_payment_received_example =
    net-notify_payment_received (pos 50) owing notify_payment_received_run

abbrev action : DebitAction
action = record { price = pos 50; applied = false }

prepare_debit_run :
    prepare_debit (pos 50) indebted
    ≡ (ok action, record indebted { peer = record peer { shadow_reserved = pos 50 } })
unfolding prepare_debit ◌+ℤ◌
prepare_debit_run = refl

apply-prepare_debit_run :
    increase_balance (pos 50) (record indebted { peer = record peer { shadow_reserved = pos 50 } })
    ≡ (ok (negsuc 669), record drawn { peer = record peer { shadow_reserved = pos 50 } })
unfolding increase_balance get_balance get_surplus get_originated decrease_originated_to ◌+ℤ◌ ◌-ℤ◌
apply-prepare_debit_run = refl

abbrev shadowed : Account
shadowed = record indebted { peer = record peer { shadow_reserved = pos 710 } }
