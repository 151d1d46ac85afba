-- ===== src/Breaker/State.antt =====
-- `breaker` and its methods (pkg/p2p/libp2p/internal/breaker/breaker.go).
use sana.Common.{ℕ, ◌+◌, Bool, true, false, not, ◌&&◌, ◌||◌, ◌==◌, if◌then◌else◌}
use sana.Common.Time.{Time, is_zero, since}
use sana.Common.Int.{ℤ, pos, ◌+ℤ◌, ◌*ℤ◌, ltb_ℤ, leb_ℤ, eqb_ℤ}
use sana.Common.Word.{wrap64}

-- Durations are int64 nanoseconds.
pub record Breaker : Type 0 where
  pub limit : ℤ
  pub cons_failed_calls : ℕ
  pub first_failed_timestamp : Time
  pub closed_timestamp : Time
  pub backoff : ℤ
  pub max_backoff : ℤ
  pub fail_interval : ℤ

pub record Options : Type 0 where
  pub limit : ℤ
  pub fail_interval : ℤ
  pub start_backoff : ℤ
  pub max_backoff : ℤ

abbrev pub or_default : ℤ → ℤ → ℤ
or_default default x = if eqb_ℤ x (pos 0) then default else x

unfoldable pub new_breaker : Options → Breaker
new_breaker o = record {
  limit = or_default (pos 100) o.limit;
  cons_failed_calls = 0;
  first_failed_timestamp = 0;
  closed_timestamp = 0;
  backoff = or_default (pos 120000000000) o.start_backoff;
  max_backoff = or_default (pos 3600000000000) o.max_backoff;
  fail_interval = or_default (pos 1800000000000) o.fail_interval;
}

abbrev pub reset_failed : Breaker → Breaker
reset_failed b = record b { cons_failed_calls = 0; first_failed_timestamp = 0 }

abbrev pub over_limit : Breaker → Bool
over_limit b = leb_ℤ b.limit (pos b.cons_failed_calls)

abbrev pub must_wait : Time → Breaker → Bool
must_wait now b = is_zero b.closed_timestamp || ltb_ℤ (since now b.closed_timestamp) b.backoff

unfoldable pub next_backoff : ℤ → ℤ → ℤ
next_backoff max_backoff backoff =
    let doubled = wrap64 (backoff *ℤ pos 2) in
    if leb_ℤ doubled max_backoff then doubled else max_backoff

-- The breaker opens again, with a longer backoff for the next time.
abbrev pub reopen : Breaker → Breaker
reopen b = record b {
  cons_failed_calls = 0;
  first_failed_timestamp = 0;
  backoff = next_backoff b.max_backoff b.backoff;
}

-- Failures before the interval are forgotten.
abbrev pub forget_old : Time → Breaker → Breaker
forget_old now b =
    if not (is_zero b.first_failed_timestamp)
      && leb_ℤ b.fail_interval (since now b.first_failed_timestamp)
    then reset_failed b
    else b

-- beforef, run at `now`; the Boolean is true for ErrClosed.
unfoldable pub beforef : Time → Breaker → Bool × Breaker
beforef now b =
    if over_limit b && must_wait now b
    then (true, b)
    else (false, forget_old now (if over_limit b then reopen b else b))

-- afterf, run at `now`, for a call that failed (true) or not.
unfoldable pub afterf : Time → Bool → Breaker → Breaker
afterf now false b = reset_failed b
afterf now true b =
    let failed = b.cons_failed_calls + 1 in
    record b {
      first_failed_timestamp = if b.cons_failed_calls == 0 then now else b.first_failed_timestamp;
      cons_failed_calls = failed;
      closed_timestamp = if eqb_ℤ (pos failed) b.limit then now else b.closed_timestamp;
    }

pub data Outcome : Type 0 where
  closed : Outcome
  ran : Bool → Outcome

-- Execute, for a function that fails or not and that ends at `later`; no other call comes between.
unfoldable pub execute : Time → Time → Bool → Breaker → Outcome × Breaker
execute now later fails b =
    let (refused, after) = beforef now b in
    if refused then (closed, b) else (ran fails, afterf later fails after)

-- ClosedUntil at `now`, a time as an integer.
unfoldable pub closed_until : Time → Breaker → ℤ
closed_until now b = if over_limit b then pos b.closed_timestamp +ℤ b.backoff else pos now
