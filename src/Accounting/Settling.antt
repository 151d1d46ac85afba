-- ===== src/Accounting/Settling.antt =====
-- What a settlement keeps (pkg/accounting/accounting.go).
use sana.Common.{Bool, Option, none, some, arith}
use sana.Common.Int.{ℤ, pos, ◌+ℤ◌}
use sana.Accounting.State.{
  Config, Env, Account, Op, Error, raise, ◌>>=◌, when, gets, modify_peer, put_balance, get_balance,
  compensated_balance, get_originated,
}
use sana.Accounting.Blocking.{shadow_balance, blocklist}
use sana.Accounting.Spending.{
  decrease_originated_to, register_refresh, refresh_debt, start_payment, pay_if_due, refresh_if_due,
  settle,
}
use sana.Accounting.Frames.{Steps, Keeps, Keeps-refl, Keeps-trans, bind-Steps, when-Steps}

get_originated-Keeps : Steps Keeps get_originated
unfolding get_originated
get_originated-Keeps = record { at = λ s. ground arith }

get_balance-Keeps : Steps Keeps get_balance
unfolding get_balance
get_balance-Keeps = record { at = λ s. ground arith }

shadow_balance-Keeps : Steps Keeps shadow_balance
unfolding shadow_balance
shadow_balance-Keeps = record { at = λ s. ground arith }

blocklist-Keeps : (c : Config) (k : ℤ) → Steps Keeps (blocklist c k)
unfolding blocklist
blocklist-Keeps c k = record { at = λ s. ground arith }

decrease_originated_to-Keeps : (z : ℤ) → Steps Keeps (decrease_originated_to z)
unfolding decrease_originated_to
decrease_originated_to-Keeps z = record { at = λ s. ground arith }

start_payment-Keeps : (c : Config) → Steps Keeps (start_payment c)
unfolding start_payment
start_payment-Keeps c = record { at = λ s. ground arith }

compensated_balance-Keeps : Steps Keeps compensated_balance
unfolding compensated_balance
compensated_balance-Keeps = record { at = λ s. ground arith }

put_balance-Keeps : (z : ℤ) → Steps Keeps (put_balance z)
put_balance-Keeps z = record { at = λ s. ground arith }

bind-Keeps :
    {A B : Type 0} {m : Op A} {f : A → Op B}
    → Steps Keeps m
    → ((a : A) → Steps Keeps (f a))
    → Steps Keeps (m >>= f)
bind-Keeps = bind-Steps Keeps Keeps-refl Keeps-trans

when-Keeps : (b : Bool) {m : Op (Unit {0})} → Steps Keeps m → Steps Keeps (when b m)
when-Keeps = when-Steps Keeps Keeps-refl Keeps-trans

gets-Keeps : {A : Type 0} (f : Account → A) → Steps Keeps (gets f)
gets-Keeps f = record { at = Keeps-refl }

raise-Keeps : {A : Type 0} (e : Error) → Steps Keeps (raise {A = A} e)
raise-Keeps e = record { at = Keeps-refl }

set_timestamp-Keeps : (t : ℤ) → Steps Keeps (modify_peer (λ p. record p { refresh_timestamp = t }))
set_timestamp-Keeps t = record { at = λ s. ground arith }

ruleset keeps = (
  bind-Keeps, when-Keeps, gets-Keeps, raise-Keeps, set_timestamp-Keeps, get_balance-Keeps,
  get_originated-Keeps, shadow_balance-Keeps, blocklist-Keeps, decrease_originated_to-Keeps,
  start_payment-Keeps, compensated_balance-Keeps, put_balance-Keeps,
)

register_refresh-Keeps :
    (c : Config) (old : ℤ) (r : Option (ℤ × ℤ)) → Steps Keeps (register_refresh c old r)
register_refresh-Keeps c old none = bind-Keeps (blocklist-Keeps c (pos 1)) λ _. raise-Keeps _
register_refresh-Keeps c old (some (accepted, timestamp)) =
    bind-Keeps (set_timestamp-Keeps timestamp) λ _.
      bind-Keeps (put_balance-Keeps (old +ℤ accepted))
        λ _. decrease_originated_to-Keeps (old +ℤ accepted)

refresh_debt-Keeps :
    (c : Config) (env : Env) (old amount : ℤ) → Steps Keeps (refresh_debt c env old amount)
unfolding refresh_debt
refresh_debt-Keeps c env old amount = search (keeps, register_refresh-Keeps)

refresh_if_due-Keeps :
    (c : Config) (env : Env) (t old amount : ℤ) → Steps Keeps (refresh_if_due c env t old amount)
unfolding refresh_if_due
refresh_if_due-Keeps c env t old amount = search (keeps, refresh_debt-Keeps)

pay_if_due-Keeps : (c : Config) (env : Env) → Steps Keeps (pay_if_due c env)
unfolding pay_if_due
pay_if_due-Keeps c env = search keeps

-- Settling changes neither what is reserved nor the threshold nor the surplus, on any path.
pub settle-Keeps : (c : Config) (env : Env) → Steps Keeps (settle c env)
unfolding settle
settle-Keeps c env = search (keeps, refresh_if_due-Keeps, pay_if_due-Keeps) depth 8
