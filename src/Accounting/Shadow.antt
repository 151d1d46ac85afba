-- ===== src/Accounting/Shadow.antt =====
-- The allowance that is handed to the refreshment function: shadowBalance
-- (pkg/accounting/accounting.go).
use sana.Common.{some, [], ◌≡◌}
use sana.Common.Int.{ℤ, pos, ◌+ℤ◌, ◌-ℤ◌, ◌≤ℤ◌, ◌<ℤ◌, int_laws}
use sana.Accounting.State.{Account, ok, get_surplus}
use sana.Accounting.Blocking.{shadow_balance}

-- If the shadow reserve is above the debt, but no further than by the surplus, then the shadow
-- balance is below 0: the surplus counts in the test, and not in the result. No access fails.
pub shadow_balance-lt-zero :
    (s : Account) {b u : ℤ}
    → s.faults ≡ []
    → s.balance ≡ some b
    → b <ℤ pos 0
    → s.surplus ≡ some u
    → pos 0 ≤ℤ u
    → pos 0 -ℤ b <ℤ s.shadow_reserved
    → s.shadow_reserved ≤ℤ (pos 0 -ℤ b) +ℤ u
    → ((shadow_balance s).0 ≡ ok (pos 0 -ℤ b -ℤ s.shadow_reserved))
      × (pos 0 -ℤ b -ℤ s.shadow_reserved <ℤ pos 0)
unfolding shadow_balance get_surplus
shadow_balance-lt-zero s calm e neg e' h above below = (grind int_laws, omega int_laws)
