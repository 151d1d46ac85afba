-- ===== src/Breaker/Reach.antt =====
-- The states of the breaker under any interleaving of the calls of beforef and afterf, which are
-- under the lock (pkg/p2p/libp2p/internal/breaker/breaker.go).
use sana.Common.{◌<◌, ◌^◌, ◌≡◌, Bool, true, false, arith}
use sana.Common.Int.{ℤ, pos, negsuc, ◌*ℤ◌, ◌≤ℤ◌, ◌<ℤ◌}
use sana.Common.Word.{wrap64}
use sana.Breaker.State.{Breaker, Options, new_breaker, over_limit, beforef, afterf, next_backoff}
use sana.Common.Time.{Time}

-- One call under the lock; time is past Go's zero time.
pub data Step : Breaker → Breaker → Type 0 where
  before : (b : Breaker) (now : Time) → 0 < now → Step b (beforef now b).1
  after : (b : Breaker) (now : Time) (fails : Bool) → 0 < now → Step b (afterf now fails b)

pub data Reach (b : Breaker) : Breaker → Type 0 where
  here : Reach b b
  there : (c d : Breaker) → Reach b c → Step c d → Reach b d

-- The breaker can open again: a breaker that is at its limit has the time at which it was closed,
-- and its backoff is between 0 and the largest one.
pub record IsSound (b : Breaker) : Type 0 where
  pub has_limit : pos 0 <ℤ b.limit
  pub closed_at : over_limit b ≡ true → 0 < b.closed_timestamp
  pub positive : pos 0 ≤ℤ b.backoff
  pub bounded : b.backoff ≤ℤ b.max_backoff
  pub no_overflow : b.max_backoff <ℤ pos (2 ^ 62)

doubled : (x : ℤ) → pos 0 ≤ℤ x → x <ℤ pos (2 ^ 62) → pos 0 ≤ℤ wrap64 (x *ℤ pos 2)
unfolding wrap64 ◌*ℤ◌
doubled (pos n) h k = ground arith
doubled (negsuc n) h k = absurd (omega arith)

next_backoff_bounds :
    (m x : ℤ)
    → pos 0 ≤ℤ x
    → x ≤ℤ m
    → m <ℤ pos (2 ^ 62)
    → (pos 0 ≤ℤ next_backoff m x) × (next_backoff m x ≤ℤ m)
unfolding next_backoff
next_backoff_bounds m x p b h = let d = doubled x p (omega arith) in ground arith

beforef-IsSound : (now : Time) (b : Breaker) → 0 < now → IsSound b → IsSound (beforef now b).1
unfolding beforef
beforef-IsSound now b h s =
    let n = next_backoff_bounds b.max_backoff b.backoff s.positive s.bounded s.no_overflow in
    record {
      has_limit = ground (arith, s.has_limit);
      closed_at = ground (arith, s.has_limit, s.closed_at);
      positive = ground (arith, n, s.positive);
      bounded = ground (arith, n, s.bounded);
      no_overflow = ground (arith, s.no_overflow);
    }

afterf-IsSound :
    (now : Time) (fails : Bool) (b : Breaker) → 0 < now → IsSound b → IsSound (afterf now fails b)
unfolding afterf
afterf-IsSound now false b h s = record {
  has_limit = s.has_limit;
  closed_at = ground (arith, s.has_limit);
  positive = s.positive;
  bounded = s.bounded;
  no_overflow = s.no_overflow;
}
afterf-IsSound now true b h s = record {
  has_limit = s.has_limit;
  closed_at = ground (arith, s.closed_at);
  positive = s.positive;
  bounded = s.bounded;
  no_overflow = s.no_overflow;
}

Step-IsSound : (b c : Breaker) → Step b c → IsSound b → IsSound c
Step-IsSound b c (before _ now h) s = beforef-IsSound now b h s
Step-IsSound b c (after _ now fails h) s = afterf-IsSound now fails b h s

new_breaker-IsSound :
    (o : Options)
    → pos 0 ≤ℤ o.limit
    → pos 0 ≤ℤ o.start_backoff
    → let b = new_breaker o in
      b.backoff ≤ℤ b.max_backoff → b.max_backoff <ℤ pos (2 ^ 62) → IsSound b
unfolding new_breaker
new_breaker-IsSound o l p h k = record {
  has_limit = ground arith;
  closed_at = ground arith;
  positive = ground arith;
  bounded = h;
  no_overflow = k;
}

-- Whatever calls run and however they interleave, a new breaker whose options are not negative, and
-- whose backoff starts within a largest one below 2^62 ns, is sound: at its limit it knows since
-- when it is closed, and its backoff is between 0 and the largest one.
pub Reach-IsSound :
    (o : Options) (b : Breaker)
    → pos 0 ≤ℤ o.limit
    → pos 0 ≤ℤ o.start_backoff
    → (new_breaker o).backoff ≤ℤ (new_breaker o).max_backoff
    → (new_breaker o).max_backoff <ℤ pos (2 ^ 62)
    → Reach (new_breaker o) b
    → IsSound b
Reach-IsSound o b l p h k here = new_breaker-IsSound o l p h k
Reach-IsSound o b l p h k (there c _ r s) = Step-IsSound c b s (Reach-IsSound o c l p h k r)
