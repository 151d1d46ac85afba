-- ===== src/Pseudosettle/State.antt =====
-- peerAllowance, handler and Pay (pkg/settlement/pseudosettle/pseudosettle.go), for one peer. Times
-- are int64 seconds. What the transport, the store and the accounting answer comes as arguments.
use sana.Common.{ℕ, Bool, not, ◌||◌, Option, none, some, if◌then◌else◌}
use sana.Common.Int.{ℤ, pos, ◌+ℤ◌, ◌-ℤ◌, ◌*ℤ◌, ltb_ℤ, leb_ℤ, eqb_ℤ, max_zero}
use sana.Common.Word.{wrap64}

pub record LastPayment : Type 0 where
  pub timestamp : ℤ
  pub check_timestamp : ℤ
  pub total : ℤ

pub data Error : Type 0 where
  read_failed : Error
  no_pseudo_settle_peer : Error
  settlement_too_soon : Error
  store_failed : Error
  accounting_failed : Error
  stream_failed : Error
  write_failed : Error
  accepted_larger : Error
  accepted_lower : Error
  time_out_of_sync : Error

pub data Result (A : Type 0) : Type 0 where
  failed : Error → Result A
  ok : A → Result A

-- The record of a peer with whom there was no payment.
abbrev pub or_new : Option LastPayment → LastPayment
or_new none = record { timestamp = pos 0; check_timestamp = pos 0; total = pos 0 }
or_new (some p) = p

abbrev pub least : ℤ → ℤ → ℤ
least a b = if leb_ℤ a b then a else b

-- The smaller of the debt, `none` if it cannot be read, and what the time since the last payment
-- allows.
abbrev pub allowed : ℤ → ℤ → Option ℤ → Result (ℤ × ℤ)
allowed maximum now none = failed accounting_failed
allowed maximum now (some debt) = ok (least maximum debt, now)

unfoldable pub peer_allowance : ℤ → ℤ → Option ℤ → Option LastPayment → Result (ℤ × ℤ)
peer_allowance refresh_rate now debt stored =
    let last = or_new stored in
    if eqb_ℤ now last.timestamp
    then failed settlement_too_soon
    else allowed (wrap64 (now -ℤ last.timestamp) *ℤ refresh_rate) now debt

-- What a run of the handler meets: does reading the request fail, the amount of the request, is the
-- peer known, the time, the debt of the peer, and do the accesses and the notice fail?
pub record Request : Type 0 where
  pub read_fails : Bool
  pub amount : ℕ
  pub known : Bool
  pub load_fails : Bool
  pub now : ℤ
  pub debt : Option ℤ
  pub write_fails : Bool
  pub reload_fails : Bool
  pub save_fails : Bool
  pub notify_fails : Bool

-- What the handler leaves: its error, the acknowledgement that it sent (amount and time), the
-- record in the store, and the amount that the accounting was told.
pub record Handled : Type 0 where
  pub error : Option Error
  pub ack : Option (ℤ × ℤ)
  pub received : Option LastPayment
  pub notified : Option ℤ

abbrev pub refused : Error → Option LastPayment → Handled
refused e stored = record { error = some e; ack = none; received = stored; notified = none }

abbrev pub after_ack : Option Error → ℤ × ℤ → Option LastPayment → Option ℤ → Handled
after_ack e ack stored notified = record {
  error = e;
  ack = some ack;
  received = stored;
  notified = notified;
}

-- The payment is what was asked for, but no more than the allowance and not negative.
abbrev pub payment : ℤ → ℤ → ℤ
payment allowance attempted = max_zero (if ltb_ℤ allowance attempted then allowance else attempted)

abbrev pub paid : LastPayment → ℤ → ℤ → LastPayment
paid last amount time = record last { total = last.total +ℤ amount; timestamp = time }

-- The handler from the acknowledgement on.
abbrev pub acknowledge : Request → Option LastPayment → Result (ℤ × ℤ) → Handled
acknowledge r stored (failed e) = refused e stored
acknowledge r stored (ok (allowance, time)) =
    let amount = payment allowance (pos r.amount) in
    let next = paid (or_new stored) amount time in
    if r.write_fails
    then refused write_failed stored
    else if r.reload_fails
    then after_ack (some store_failed) (amount, time) stored none
    else if r.save_fails
    then after_ack (some store_failed) (amount, time) stored none
    else if r.notify_fails
    then after_ack (some accounting_failed) (amount, time) (some next) (some amount)
    else after_ack none (amount, time) (some next) (some amount)

unfoldable pub handler : ℤ → Request → Option LastPayment → Handled
handler refresh_rate r stored =
    if r.read_fails
    then refused read_failed stored
    else if not r.known
    then refused no_pseudo_settle_peer stored
    else if r.load_fails
    then refused store_failed stored
    else acknowledge r stored (peer_allowance refresh_rate r.now r.debt stored)

-- What a run of Pay meets: the times of its two readings of the clock, and the answer of the peer
-- (amount and time), or none.
pub record Exchange : Type 0 where
  pub load_fails : Bool
  pub now : ℤ
  pub stream_fails : Bool
  pub write_fails : Bool
  pub check_time : ℤ
  pub answer : Option (ℕ × ℤ)
  pub save_fails : Bool

abbrev pub outside : ℤ → ℤ → Bool
outside bound x = ltb_ℤ x (pos 0 -ℤ bound) || ltb_ℤ bound x

abbrev pub out_of_sync : LastPayment → ℤ → ℤ → Bool
out_of_sync last check_time time =
    let alleged = wrap64 (time -ℤ last.timestamp) in
    let experienced = wrap64 (check_time -ℤ last.check_timestamp) in
    ltb_ℤ alleged (pos 0)
    || outside (pos 2) (wrap64 (time -ℤ check_time))
    || outside (pos 3) (wrap64 (experienced -ℤ alleged))

-- The least amount that the peer must accept.
abbrev pub expected : ℤ → LastPayment → ℤ → ℤ → ℤ
expected refresh_rate last check_allowance time =
    let by_time = wrap64 (time -ℤ last.timestamp) *ℤ refresh_rate in
    if ltb_ℤ check_allowance by_time then check_allowance else by_time

abbrev pub settled : LastPayment → ℤ → ℤ → ℤ → LastPayment
settled last accepted time check_time = record {
  timestamp = time;
  check_timestamp = check_time;
  total = last.total +ℤ accepted;
}

abbrev pub check_answer :
    ℤ → ℤ → ℤ → Exchange → Option LastPayment → Option (ℕ × ℤ) → Result (ℤ × ℤ) × Option LastPayment
check_answer refresh_rate amount check_allowance x stored none = (failed read_failed, stored)
check_answer refresh_rate amount check_allowance x stored (some (a, time)) =
    let last = or_new stored in
    let accepted = pos a in
    if ltb_ℤ amount accepted
    then (failed accepted_larger, stored)
    else if out_of_sync last x.check_time time
    then (failed time_out_of_sync, stored)
    else if ltb_ℤ accepted (expected refresh_rate last check_allowance time)
    then (failed accepted_lower, stored)
    else if x.save_fails
    then (failed store_failed, stored)
    else (ok (accepted, x.check_time), some (settled last accepted time x.check_time))

-- Pay; the result has the accepted amount and the time.
unfoldable pub pay : ℤ → ℤ → ℤ → Exchange → Option LastPayment → Result (ℤ × ℤ) × Option LastPayment
pay refresh_rate amount check_allowance x stored =
    if x.load_fails
    then (failed store_failed, stored)
    else if eqb_ℤ x.now (or_new stored).timestamp
    then (failed settlement_too_soon, stored)
    else if x.stream_fails
    then (failed stream_failed, stored)
    else if x.write_fails
    then (failed write_failed, stored)
    else check_answer refresh_rate amount
        (if ltb_ℤ amount check_allowance then amount else check_allowance) x stored x.answer
