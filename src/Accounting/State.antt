-- ===== src/Accounting/State.antt =====
-- The state of one peer's account and the reads and writes of its three store entries
-- (pkg/accounting/accounting.go). The state store is not part of that file: any access may fail, as
-- the list `faults` says, one entry for an access, and none fails once the list is used up. A write
-- that fails leaves the entry as it was.
use sana.Common.{Bool, true, false, not, ◌&&◌, Option, none, some, List, [], ◌∷◌, if◌then◌else◌}
use sana.Common.Int.{ℤ, pos, ◌+ℤ◌, ◌-ℤ◌, ◌/ℤ◌, ltb_ℤ, eqb_ℤ}

-- The fields of `Accounting` that its operations read.
pub record Config : Type 0 where
  pub payment_threshold : ℤ
  pub payment_tolerance : ℤ
  pub early_payment : ℤ
  pub disconnect_limit : ℤ
  pub refresh_rate : ℤ
  pub minimum_payment : ℤ
  pub has_pay_function : Bool

-- minimumPaymentDivisor
abbrev pub minimum_payment_divisor : ℤ
minimum_payment_divisor = pos 5

-- failedSettlementInterval, in seconds
abbrev pub failed_settlement_interval : ℤ
failed_settlement_interval = pos 10

-- The pay function is set later, by `set_pay_function`.
unfoldable pub new_accounting : ℤ → ℤ → ℤ → ℤ → Config
new_accounting threshold tolerance early rate = record {
  payment_threshold = threshold;
  payment_tolerance = tolerance;
  early_payment = early;
  disconnect_limit = threshold +ℤ tolerance;
  refresh_rate = rate;
  minimum_payment = rate /ℤ minimum_payment_divisor;
  has_pay_function = false;
}

unfoldable pub set_pay_function : Config → Config
set_pay_function c = record c { has_pay_function = true }

-- The clock, and the function that settles by time with the peer: `none` is its error, otherwise
-- it returns the accepted amount and a timestamp.
pub record Env : Type 0 where
  pub now : ℤ
  pub refresh : ℤ → ℤ → Option (ℤ × ℤ)

-- accountingPeer
pub record AccountingPeer : Type 0 where
  pub reserved : ℤ
  pub shadow_reserved : ℤ
  pub ghost : ℤ
  pub payment_threshold : ℤ
  pub refresh_timestamp : ℤ
  pub payment_ongoing : Bool
  pub last_failure : ℤ
  pub connected : Bool

-- Calls of the p2p service and of the pay function: a peer is blocked for a duration in
-- nanoseconds, a payment is started.
pub data Event : Type 0 where
  blocklisted : ℤ → Event
  pay : ℤ → Event

pub record Account : Type 0 where
  pub peer : AccountingPeer
  pub open peer use *
  pub balance : Option ℤ
  pub surplus : Option ℤ
  pub originated : Option ℤ
  pub faults : List Bool
  pub events : List Event

-- An error that wraps another by %w stands for the inner one.
pub data Error : Type 0 where
  store_failure no_balance invalid_value not_connected overdraft : Error
  settle_failure refresh_failure sanity_check : Error
  block_peer : ℤ → Error

pub data Result (A : Type 0) : Type 0 where
  ok : A → Result A
  err : Error → Result A

-- An operation under the peer's lock. What was written before an error stays written.
abbrev pub Op : Type 0 → Type 0
Op A = Account → Result A × Account

module _ {A : Type 0} where
  abbrev pub pure : A → Op A
  pure a s = (ok a, s)

  abbrev pub raise : Error → Op A
  raise e s = (err e, s)

  abbrev pub gets : (Account → A) → Op A
  gets f s = (ok (f s), s)

infixl 5 ◌>>=◌ ◌>>◌
abbrev pub continue : {A B : Type 0} → (A → Op B) → Result A × Account → Result B × Account
continue f (ok a, s) = f a s
continue f (err e, s) = (err e, s)

abbrev pub ◌>>=◌ : {A B : Type 0} → Op A → (A → Op B) → Op B
◌>>=◌ m f s = continue f (m s)

abbrev pub ◌>>◌ : {A B : Type 0} → Op A → Op B → Op B
m >> k = m >>= λ _. k

abbrev pub modify : (Account → Account) → Op (Unit {0})
modify f s = (ok tt, f s)

abbrev pub modify_peer : (AccountingPeer → AccountingPeer) → Op (Unit {0})
modify_peer f s = (ok tt, record s { peer = f s.peer })

abbrev pub raise_if : Bool → Error → Op (Unit {0})
raise_if c e s = (if c then err e else ok tt, s)

abbrev pub when : Bool → Op (Unit {0}) → Op (Unit {0})
when c m = if c then m else pure tt

-- An error that is only logged.
abbrev pub logged : Op (Unit {0}) → Op (Unit {0})
logged m s = (ok tt, (m s).1)

abbrev pub access_with : {A : Type 0} → List Bool → Op A → Op A
access_with [] m s = m s
access_with (true ∷ fs) m s = (err store_failure, record s { faults = fs })
access_with (false ∷ fs) m s = m (record s { faults = fs })

-- One access of the state store.
abbrev pub access : {A : Type 0} → Op A → Op A
access m s = access_with s.faults m s

abbrev pub put_balance : ℤ → Op (Unit {0})
put_balance z = access (modify (λ s. record s { balance = some z }))

abbrev pub put_surplus : ℤ → Op (Unit {0})
put_surplus z = access (modify (λ s. record s { surplus = some z }))

abbrev pub put_originated : ℤ → Op (Unit {0})
put_originated z = access (modify (λ s. record s { originated = some z }))

-- The value, and whether there was one: false stands for ErrPeerNoBalance beside 0.
abbrev pub known : Option ℤ → Op (ℤ × Bool)
known none = pure (pos 0, false)
known (some z) = pure (z, true)

unfoldable pub get_balance : Op (ℤ × Bool)
get_balance = do known (← access (gets (λ s. s.balance)))

unfoldable pub get_originated : Op (ℤ × Bool)
get_originated = do known (← access (gets (λ s. s.originated)))

abbrev pub non_negative : Option ℤ → Op ℤ
non_negative none = pure (pos 0)
non_negative (some z) = if ltb_ℤ z (pos 0) then raise invalid_value else pure z

unfoldable pub get_surplus : Op ℤ
get_surplus = do non_negative (← access (gets (λ s. s.surplus)))

unfoldable pub compensated_balance : Op ℤ
unfolding get_surplus get_balance
compensated_balance = do
  surplus ← get_surplus
  (balance, found) ← get_balance
  raise_if (eqb_ℤ surplus (pos 0) && not found) no_balance
  pure (balance -ℤ surplus)
