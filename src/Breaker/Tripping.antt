-- ===== src/Breaker/Tripping.antt =====
-- What a caller of Execute sees (pkg/p2p/libp2p/internal/breaker/breaker.go).
use sana.Common.{
  ℕ, suc, ◌+◌, ◌<◌, ◌≡◌, ap, sym, subst, ◌∙◌, Bool, true, false, List, [], ◌∷◌, if◌then◌else◌,
  length, arith,
}
use sana.Common.Int.{ℤ, pos, ◌≤ℤ◌, ◌<ℤ◌, eqb_ℤ}
use sana.Breaker.State.{
  Breaker, over_limit, must_wait, beforef, afterf, next_backoff, closed, ran, execute,
}
use sana.Common.Time.{Time, since}

-- Calls of Execute, one after the other, whose function fails at once, at these times.
abbrev pub fail_all : List Time → Breaker → Breaker
fail_all [] b = b
fail_all (t ∷ ts) b = fail_all ts (execute t t true b).1

-- All the times are past Go's zero time, and no later than the fail interval after `first`.
abbrev pub InInterval : ℤ → Time → List Time → Type 0
InInterval interval first [] = Unit {0}
InInterval interval first (t ∷ ts) =
    (0 < t) × (since t first <ℤ interval) × InInterval interval first ts

abbrev pub last_time : Time → List Time → Time
last_time t [] = t
last_time t (u ∷ us) = last_time u us

-- The breaker after `n` failures in a row, the first of them at `first`.
abbrev failed : ℕ → Time → Breaker → Breaker
failed n first b = record b { cons_failed_calls = n; first_failed_timestamp = first }

one_more :
    (n : ℕ) (first t : Time) (b : Breaker)
    → 0 < first
    → 0 < n
    → pos (suc n) ≤ℤ b.limit
    → since t first <ℤ b.fail_interval
    → (execute t t true (failed n first b)).1 ≡ record (failed (n + 1) first b) {
      closed_timestamp = if eqb_ℤ (pos (n + 1)) b.limit then t else b.closed_timestamp;
    }
unfolding execute beforef afterf
one_more n first t b f p l i = ground arith

-- At its limit, and closed at `t`.
abbrev pub Tripped : Time → Breaker → Type 0
Tripped t b = (over_limit b ≡ true) × (b.closed_timestamp ≡ t)

-- The failures that are left trip the breaker, at the last of them.
trip_rest :
    (ts : List Time) (n : ℕ) (first t : Time) (b : Breaker)
    → 0 < first
    → 0 < n
    → b.limit ≡ pos (n + 1 + length ts)
    → InInterval b.fail_interval first (t ∷ ts)
    → Tripped (last_time t ts) (fail_all (t ∷ ts) (failed n first b))
trip_rest [] n first t b f p l i =
    subst (Tripped t) (sym (one_more n first t b f p (rw l (omega arith)) i.1))
      (rw l (ground arith, ground arith))
trip_rest (u ∷ ts) n first t b f p l i =
    let c = record b {
      closed_timestamp = if eqb_ℤ (pos (n + 1)) b.limit then t else b.closed_timestamp;
    } in
    let e = one_more n first t b f p (rw l (omega arith)) i.1 in
    let rest = trip_rest ts (n + 1) first u c f (omega arith) (l ∙ ap pos (omega arith)) i.2 in
    subst (λ x. Tripped (last_time u ts) (fail_all (u ∷ ts) x)) (sym e) rest

first_failure :
    (t : Time) (b : Breaker)
    → b.cons_failed_calls ≡ 0
    → b.first_failed_timestamp ≡ 0
    → pos 1 <ℤ b.limit
    → (execute t t true b).1 ≡ failed 1 t b
unfolding execute beforef afterf
first_failure t b c f l = ground arith

-- A breaker with no failure, whose limit is n + 2, is at its limit after n + 2 failures in a row
-- within the fail interval, and was closed at the last of them.
pub fail_all-trips :
    (t u : Time) (ts : List Time) (b : Breaker)
    → b.cons_failed_calls ≡ 0
    → b.first_failed_timestamp ≡ 0
    → b.limit ≡ pos (2 + length ts)
    → 0 < t
    → InInterval b.fail_interval t (u ∷ ts)
    → Tripped (last_time u ts) (fail_all (t ∷ u ∷ ts) b)
fail_all-trips t u ts b c f l h i =
    subst (λ x. Tripped (last_time u ts) (fail_all (u ∷ ts) x))
      (sym (first_failure t b c f (rw l (omega arith))))
      (trip_rest ts 1 t u b h (omega arith) (l ∙ ap pos (omega arith)) i)

-- At the limit, a call is refused, with the breaker as it was, exactly while less than the backoff
-- has passed since it was closed (or if it has no such time). From then on the call runs: the
-- backoff becomes the next one, and the failures that are counted are this call's alone.
pub execute_at_limit :
    (now later : Time) (fails : Bool) (b : Breaker)
    → over_limit b ≡ true
    → (must_wait now b ≡ true → execute now later fails b ≡ (closed, b))
      × (must_wait now b ≡ false
          → ((execute now later fails b).0 ≡ ran fails)
            × ((execute now later fails b).1.backoff ≡ next_backoff b.max_backoff b.backoff)
            × ((execute now later fails b).1.cons_failed_calls ≡ (if fails then 1 else 0)))
unfolding execute beforef afterf
execute_at_limit now later true b o = ground arith
execute_at_limit now later false b o = ground arith
