-- ===== src/Intervals/Tests.antt =====
-- Tests of the intervals, and the theorems at concrete stores (pkg/intervalstore/intervals.go).
use sana.Common.{ℕ, ◌≡◌, refl, inl, inr, [], ◌∷◌, leb, ◌&&◌, ◌||◌, arith}
use sana.Intervals.Store.{Intervals, max_uint64, add, scan, write}
use sana.Intervals.Merging.{insert}
use sana.Intervals.Adding.{contains, IsValid, add-insert, contains-add}

-- An interval inside a range of the store is stored once more.
contained : (add 5 7 (record { start = 0; ranges = (1, 10) ∷ [] })).ranges ≡ (1, 10) ∷ (5, 7) ∷ []
unfolding add scan write
contained = refl

merged :
    (add 4 20 (record { start = 0; ranges = (1, 3) ∷ (6, 9) ∷ (21, 30) ∷ (40, 50) ∷ [] })).ranges
    ≡ (1, 30) ∷ (40, 50) ∷ []
unfolding add scan write
merged = refl

at_max :
    (add 15 max_uint64 (record { start = 0; ranges = (1, 2) ∷ (10, 20) ∷ [] })).ranges
    ≡ (15, max_uint64) ∷ (1, 2) ∷ (10, 20) ∷ []
unfolding add scan write
at_max = refl

abbrev two_ranges : Intervals
two_ranges = record { start = 1; ranges = (1, 10) ∷ (20, 30) ∷ [] }

two_ranges-IsValid : IsValid two_ranges
two_ranges-IsValid =
    (omega arith, omega arith, omega arith, (omega arith, omega arith, omega arith, tt))

add-insert_example : (add 8 19 two_ranges).ranges ≡ insert 8 19 two_ranges.ranges
add-insert_example =
    add-insert 8 19 two_ranges two_ranges-IsValid (omega arith) (omega arith)
      (inr (omega arith), (inl (omega arith), tt))

contains-add_example :
    IsValid (add 8 19 two_ranges)
    × ((p : ℕ)
        → contains p (add 8 19 two_ranges).ranges
          ≡ ((leb 8 p && leb p 19) || contains p two_ranges.ranges))
contains-add_example =
    contains-add 8 19 two_ranges two_ranges-IsValid (omega arith) (omega arith)
      (inr (omega arith), (inl (omega arith), tt))
