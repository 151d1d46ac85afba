-- ===== src/Intervals/Splice.antt =====
-- How add writes into the ranges (pkg/intervalstore/intervals.go): the ranges between the two
-- indices give way to one.
use sana.Common.{
  ℕ, suc, ◌≡◌, refl, ap, false, none, some, List, [], ◌∷◌, ◌++◌, ◌==◌, ◌∙◌, length-append, length,
  get_or, set, take, drop, arith,
}
use mathlib.Core.List.{append_assoc}
use sana.Intervals.Store.{Range, write, set_first, set_last}

module _ {A : Type 0} where
  pub take-length_append : (xs ys : List A) → take (length xs) (xs ++ ys) ≡ xs
  take-length_append [] ys = refl
  take-length_append (x ∷ xs) ys = ap (λ l. x ∷ l) (take-length_append xs ys)

  pub drop-length_append : (xs ys : List A) → drop (length xs) (xs ++ ys) ≡ ys
  drop-length_append [] ys = refl
  drop-length_append (x ∷ xs) ys = drop-length_append xs ys

  pub set-length_append :
      (xs : List A) (y z : A) (ys : List A) → set (xs ++ y ∷ ys) (length xs) z ≡ xs ++ z ∷ ys
  set-length_append [] y z ys = refl
  set-length_append (x ∷ xs) y z ys = ap (λ l. x ∷ l) (set-length_append xs y z ys)

  pub get_or-length_append :
      (xs : List A) (y : A) (ys : List A) (d : A) → get_or (xs ++ y ∷ ys) (length xs) d ≡ y
  get_or-length_append [] y ys d = refl
  get_or-length_append (x ∷ xs) y ys d = get_or-length_append xs y ys d

-- One range alone is replaced.
pub write_one :
    (pre : List Range) (r : Range) (rs : List Range) (a b j : ℕ)
    → write (some (length pre)) (some (length pre)) a b j (pre ++ r ∷ rs) ≡ pre ++ (a, b) ∷ rs
unfolding write
write_one pre r rs a b j = ground (
  arith,
  get_or-length_append pre r rs (0, 0),
  set-length_append pre r (a, r.1) rs,
  get_or-length_append pre (a, r.1) rs (0, 0),
  set-length_append pre (a, r.1) (a, b) rs,
)

-- The first field of the range at an index, or its last field, is set.
set_first_lem :
    (i : ℕ) (xs : List Range) (y : Range) (ys : List Range) (v : ℕ)
    → i ≡ length xs
    → set_first i v (xs ++ y ∷ ys) ≡ xs ++ (v, y.1) ∷ ys
set_first_lem i xs y ys v e =
    rw (e, get_or-length_append xs y ys (0, 0)) (set-length_append xs y (v, y.1) ys)

set_last_lem :
    (i : ℕ) (xs : List Range) (y : Range) (ys : List Range) (v : ℕ)
    → i ≡ length xs
    → set_last i v (xs ++ y ∷ ys) ≡ xs ++ (y.0, v) ∷ ys
set_last_lem i xs y ys v e =
    rw (e, get_or-length_append xs y ys (0, 0)) (set-length_append xs y (y.0, v) ys)

-- The ranges from the first index to the second are replaced by one.
pub write_many :
    (pre : List Range) (r : Range) (mid : List Range) (q : Range) (rs : List Range) (a b j : ℕ)
    → write (some (length pre)) (some (length (pre ++ r ∷ mid))) a b j (pre ++ r ∷ (mid ++ q ∷ rs))
      ≡ pre ++ (a, b) ∷ rs
unfolding write
write_many pre r mid q rs a b j =
    rw (apart, both, again, take-length_append pre (r' ∷ (mid ++ (a, b) ∷ rs)))
      (ap (λ l. pre ++ l) rest)
  where
    r' : Range
    r' = (a, r.1)

    front : List Range
    front = pre ++ r' ∷ mid

    same : length (pre ++ r ∷ mid) ≡ length front
    same = omega (arith, length-append pre (r ∷ mid), length-append pre (r' ∷ mid))

    apart : (length pre == length (pre ++ r ∷ mid)) ≡ false
    apart = ground (arith, length-append pre (r ∷ mid))

    both :
        set_last (length (pre ++ r ∷ mid)) b (set_first (length pre) a (pre ++ r ∷ (mid ++ q ∷ rs)))
        ≡ front ++ (q.0, b) ∷ rs
    both =
        rw
          (
            set_first_lem (length pre) pre r (mid ++ q ∷ rs) a refl,
            ← append_assoc pre (r' ∷ mid) (q ∷ rs),
          )
          (set_last_lem _ front q rs b same)

    again :
        set_first (length (pre ++ r ∷ mid)) a (front ++ (q.0, b) ∷ rs)
        ≡ pre ++ r' ∷ (mid ++ (a, b) ∷ rs)
    again = set_first_lem _ front (q.0, b) rs a same ∙ append_assoc pre (r' ∷ mid) ((a, b) ∷ rs)

    rest : drop (length (pre ++ r ∷ mid)) (pre ++ r' ∷ (mid ++ (a, b) ∷ rs)) ≡ (a, b) ∷ rs
    rest =
        rw (same, ← append_assoc pre (r' ∷ mid) ((a, b) ∷ rs))
          (drop-length_append front ((a, b) ∷ rs))

snoc : (y : Range) (ys : List Range) → (init : List Range) × (q : Range) × (y ∷ ys ≡ init ++ q ∷ [])
snoc y [] = ([], y, refl)
snoc y (z ∷ zs) = let (init, q, e) = snoc z zs in (y ∷ init, q, ap (λ l. y ∷ l) e)

write_snoc :
    (pre : List Range) (r : Range) (mid rs : List Range) (a b j x : ℕ) (init : List Range)
    (q : Range)
    → suc x ≡ length (pre ++ r ∷ mid)
    → mid ≡ init ++ q ∷ []
    → write (some (length pre)) (some x) a b j (pre ++ r ∷ (mid ++ rs)) ≡ pre ++ (a, b) ∷ rs
write_snoc pre r mid rs a b j x init q e is_mid =
    rw (at, is_mid, append_assoc init (q ∷ []) rs) (write_many pre r init q rs a b j)
  where
    at : x ≡ length (pre ++ r ∷ init)
    at = omega (
      arith,
      e,
      ap (λ l. length (pre ++ r ∷ l)) is_mid,
      length-append pre (r ∷ (init ++ q ∷ [])),
      length-append pre (r ∷ init),
      length-append init (q ∷ []),
    )

-- The ranges from index `length pre` up to `x` give way to [a, b].
pub write_span :
    (pre : List Range) (r : Range) (mid rs : List Range) (a b j x : ℕ)
    → suc x ≡ length (pre ++ r ∷ mid)
    → write (some (length pre)) (some x) a b j (pre ++ r ∷ (mid ++ rs)) ≡ pre ++ (a, b) ∷ rs
write_span pre r [] rs a b j x e =
    let at : x ≡ length pre = omega (arith, e, length-append pre (r ∷ [])) in
    rw at (write_one pre r rs a b j)
write_span pre r (y ∷ ys) rs a b j x e =
    let (init, q, is_mid) = snoc y ys in write_snoc pre r (y ∷ ys) rs a b j x init q e is_mid

-- With no range met, [a, b] goes in at the index.
pub write_between :
    (pre rs : List Range) (a b : ℕ)
    → write none none a b (length pre) (pre ++ rs) ≡ pre ++ (a, b) ∷ rs
unfolding write
write_between pre rs a b = rw (take-length_append pre rs, drop-length_append pre rs)
