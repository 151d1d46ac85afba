-- ===== src/Breaker/Tests.antt =====
-- The theorems on the breaker at concrete states (pkg/p2p/libp2p/internal/breaker/breaker.go).
use sana.Common.{◌≡◌, refl, true, [], ◌∷◌, arith}
use sana.Common.Int.{pos, ◌≤ℤ◌, ◌<ℤ◌}
use sana.Breaker.State.{Breaker, Options, new_breaker, afterf}
use sana.Common.Time.{since}
use sana.Breaker.Reach.{after, here, there, IsSound, Reach-IsSound}
use sana.Breaker.Tripping.{fail_all, Tripped, fail_all-trips}

abbrev options : Options
options = record {
  limit = pos 3;
  fail_interval = pos 100;
  start_backoff = pos 10;
  max_backoff = pos 50;
}

abbrev new_one : Breaker
new_one = record {
  limit = pos 3;
  cons_failed_calls = 0;
  first_failed_timestamp = 0;
  closed_timestamp = 0;
  backoff = pos 10;
  max_backoff = pos 50;
  fail_interval = pos 100;
}

abbrev at_limit : Breaker
at_limit = record new_one {
  cons_failed_calls = 3;
  first_failed_timestamp = 5;
  closed_timestamp = 7;
}

built : new_breaker options ≡ new_one
unfolding new_breaker
built = refl

within : (new_breaker options).backoff ≤ℤ (new_breaker options).max_backoff
unfolding new_breaker
within = omega arith

below : (new_breaker options).max_backoff <ℤ pos 4611686018427387904
unfolding new_breaker
below = omega arith

Reach-IsSound_example : IsSound (afterf 9 true (new_breaker options))
Reach-IsSound_example =
    Reach-IsSound options (afterf 9 true (new_breaker options)) (omega arith) (omega arith) within
      below
      (there (new_breaker options) (afterf 9 true (new_breaker options)) here
        (after (new_breaker options) 9 true (omega arith)))

one_later : since 6 5 <ℤ pos 100
unfolding since
one_later = omega arith

two_later : since 7 5 <ℤ pos 100
unfolding since
two_later = omega arith

fail_all-trips_example : Tripped 7 (fail_all (5 ∷ 6 ∷ 7 ∷ []) new_one)
fail_all-trips_example =
    fail_all-trips 5 6 (7 ∷ []) new_one refl refl refl (omega arith)
      (omega arith, one_later, (omega arith, two_later, tt))
