-- ===== src/Intervals/Adding.antt =====
-- What Add does to the set of values that are covered (pkg/intervalstore/intervals.go).
use mathlib.Core.Path.{subst₂}
use sana.Common.{
  ℕ, ◌+◌, ◌≤◌, ◌<◌, ◌≡◌, refl, sym, Bool, false, ◌&&◌, ◌||◌, ◌⊎◌, List, [], ◌∷◌, ltb, leb, arith,
}
use sana.Intervals.Store.{Range, Intervals, max_uint64, end_check, add}
use sana.Intervals.Merging.{absorb, insert, larger, smaller, IsSorted, Outside, unmet-scan}

-- Is `p` in one of the ranges?
abbrev pub contains : ℕ → List Range → Bool
contains p [] = false
contains p ((l, h) ∷ rs) = (leb l p && leb p h) || contains p rs

contains-absorb :
    (p limit a b low : ℕ) (rs : List Range)
    → IsSorted low rs
    → a ≤ low
    → limit ≤ b + 1
    → contains p (absorb limit a b rs) ≡ ((leb a p && leb p b) || contains p rs)
unfolding absorb
contains-absorb p limit a b low [] s al lb = refl
contains-absorb p limit a b low ((l, h) ∷ rs) s al lb =
    ground (arith, contains-absorb p limit a (larger b h) (h + 2) rs s.3)

contains-insert :
    (p a b low : ℕ) (rs : List Range)
    → IsSorted low rs
    → a ≤ b
    → contains p (insert a b rs) ≡ ((leb a p && leb p b) || contains p rs)
unfolding insert
contains-insert p a b low [] s ab = refl
contains-insert p a b low ((l, h) ∷ rs) s ab = ground (
  arith,
  contains-insert p a b (h + 2) rs s.3 ab,
  contains-absorb p (b + 1) (smaller a l) (larger b h) (h + 2) rs s.3,
)

absorb-IsSorted :
    (limit a b low : ℕ) (rs : List Range)
    → IsSorted low rs
    → a ≤ b
    → b < max_uint64
    → (limit ≡ b + 1) ⊎ (b + 2 ≤ low)
    → IsSorted a (absorb limit a b rs)
unfolding absorb
absorb-IsSorted limit a b low [] s ab bm c = ground arith
absorb-IsSorted limit a b low ((l, h) ∷ rs) s ab bm c =
    ground (arith, absorb-IsSorted limit a (larger b h) (h + 2) rs s.3)

IsSorted-mono : (low low' : ℕ) (rs : List Range) → low' ≤ low → IsSorted low rs → IsSorted low' rs
IsSorted-mono low low' [] h s = tt
IsSorted-mono low low' (r ∷ rs) h s = (omega arith, s.1, s.2, s.3)

insert-IsSorted :
    (a b low : ℕ) (rs : List Range)
    → IsSorted low rs
    → low ≤ a
    → a ≤ b
    → b < max_uint64
    → IsSorted low (insert a b rs)
unfolding insert
insert-IsSorted a b low [] s la ab bm = ground arith
insert-IsSorted a b low ((l, h) ∷ rs) s la ab bm = ground (
  arith,
  insert-IsSorted a b (h + 2) rs s.3,
  absorb-IsSorted (b + 1) (smaller a l) (larger b h) (h + 2) rs s.3,
  IsSorted-mono (smaller a l) low (absorb (b + 1) (smaller a l) (larger b h) rs),
)

pub start-add : (start end : ℕ) (i : Intervals) → (add start end i).start ≡ i.start
unfolding add
start-add start end i = ground arith

-- The ranges are in order from the start on, with gaps, and below the largest uint64.
abbrev pub IsValid : Intervals → Type 0
IsValid i = IsSorted i.start i.ranges

end_check_lem : (end : ℕ) → end < max_uint64 → end_check end ≡ end + 1
end_check_lem end h = ground arith

-- Where no range of the store has the new one inside it with room on both sides, and the new one
-- ends below the largest uint64 and not before the store's start, Add is the merge of its part from
-- the start on into the ordered ranges: what it overlaps or is next to is joined, the rest stays.
pub add-insert :
    (start end : ℕ) (i : Intervals)
    → IsValid i
    → larger start i.start ≤ end
    → end < max_uint64
    → Outside (larger start i.start) end i.ranges
    → (add start end i).ranges ≡ insert (larger start i.start) end i.ranges
unfolding add
add-insert start end i v se em o =
    let inside : ltb end i.start ≡ false = ground arith in
    rw (inside, end_check_lem end em)
      (unmet-scan (larger start i.start) end i.start [] i.ranges 0 refl v o se em)

-- On an ordered store, where no range of it has the part of the new one from the store's start on inside
-- it with room on both sides, and the new one ends below the largest uint64 and not before its own start
-- or that of the store: Add keeps the store
-- in order, with gaps between its ranges, and covers exactly the values that were covered and those of
-- the new range from the store's start on.
pub contains-add :
    (start end : ℕ) (i : Intervals)
    → IsValid i
    → larger start i.start ≤ end
    → end < max_uint64
    → Outside (larger start i.start) end i.ranges
    → IsValid (add start end i)
      × ((p : ℕ)
          → contains p (add start end i).ranges
            ≡ ((leb (larger start i.start) p && leb p end) || contains p i.ranges))
contains-add start end i v se em o =
    let e = add-insert start end i v se em o in
    (
      subst₂ IsSorted (sym (start-add start end i)) (sym e)
          (insert-IsSorted (larger start i.start) end i.start i.ranges v (ground arith) se em),
      λ p. rw e (contains-insert p (larger start i.start) end i.start i.ranges v se),
    )
