-- ===== src/Intervals/Gaps.antt =====
-- What Next returns, and what Add does outside the cases that its callers use
-- (pkg/intervalstore/intervals.go).
use sana.Common.{
  ℕ, ◌+◌, ◌≤◌, ◌<◌, ◌≡◌, ◌≢◌, true, false, ◌⊎◌, inl, inr, List, [], ◌∷◌, if◌then◌else◌, arith, ◌==◌,
}
use sana.Intervals.Store.{Range, Intervals, max_uint64, add, next, gap, scan, write}
use sana.Intervals.Merging.{IsSorted, Outside}
use sana.Intervals.Adding.{contains, IsValid, start-add}

-- [s, e] is the first gap from `start` on: it is reached through covered values alone, and nothing
-- of it is covered. An `e` of 0 stands for no end, and otherwise the value after `e` is covered.
pub record IsFirstGap (start : ℕ) (rs : List Range) (s e : ℕ) : Type 0 where
  pub from_start : start ≤ s
  pub covered : (p : ℕ) → start ≤ p → p < s → contains p rs ≡ true
  pub open_ended : e ≡ 0 → (p : ℕ) → s ≤ p → contains p rs ≡ false
  pub free :
      e ≢ 0
      → (s ≤ e) × ((p : ℕ) → s ≤ p → p ≤ e → contains p rs ≡ false) × (contains (e + 1) rs ≡ true)

Outside-above : (a b low : ℕ) (rs : List Range) → IsSorted low rs → a ≤ low → Outside a b rs
Outside-above a b low [] s h = tt
Outside-above a b low ((l, e) ∷ rs) s h =
    (inl (omega arith), Outside-above a b (e + 2) rs s.3 (omega arith))

gap_start :
    (start l h : ℕ) (rs : List Range)
    → h < max_uint64
    → (gap start ((l, h) ∷ rs)).0 ≡ (if l == start then h + 1 else start)
unfolding gap
gap_start start l h [] hm = ground arith
gap_start start l h (r ∷ rs) hm = ground arith

first-Outside :
    (b start l h s : ℕ) (rs : List Range)
    → IsSorted start ((l, h) ∷ rs)
    → (s ≡ h + 1) ⊎ (s ≡ start)
    → s ≤ b
    → Outside s b ((l, h) ∷ rs)
first-Outside b start l h s rs v (inl e) k =
    (inr (omega arith), Outside-above s b (h + 2) rs v.3 (omega arith))
first-Outside b start l h s rs v (inr e) k = Outside-above s b start ((l, h) ∷ rs) v (omega arith)

gap-Outside :
    (b start : ℕ) (rs : List Range)
    → IsSorted start rs
    → (gap start rs).0 ≤ b
    → Outside (gap start rs).0 b rs
gap-Outside b start [] v = λ k. tt
gap-Outside b start ((l, h) ∷ rs) v =
    let e = gap_start start l h rs v.2 in
    first-Outside b start l h (gap start ((l, h) ∷ rs)).0 rs v (ground arith)

-- A range that begins where Next says, and does not end before, is never inside a range of the
-- store with room on both sides: so Add merges it.
pub next-Outside :
    (b : ℕ) (i : Intervals) → IsValid i → (next 0 i).0 ≤ b → Outside (next 0 i).0 b i.ranges
unfolding next
next-Outside b i v h = gap-Outside b i.start i.ranges v h

add_inside_lem :
    (start a b l h : ℕ)
    → start ≤ l
    → l < a
    → a ≤ b
    → b + 1 < h
    → h < max_uint64
    → (add a b (record { start = start; ranges = (l, h) ∷ [] })).ranges ≡ (l, h) ∷ (a, b) ∷ []
unfolding add scan write
add_inside_lem start a b l h sl la ab bh hm = ground arith

gap_inside :
    (start a l h b : ℕ)
    → l ≡ start
    → l < a
    → a ≤ h
    → h < max_uint64
    → (gap start ((l, h) ∷ (a, b) ∷ [])).1 < (gap start ((l, h) ∷ (a, b) ∷ [])).0
unfolding gap
gap_inside start a l h b e la ah hm = ground arith

add_max_lem :
    (start a l h : ℕ) (rs : List Range)
    → IsSorted start ((l, h) ∷ rs)
    → h + 1 < a
    → a ≤ max_uint64
    → (add a max_uint64 (record { start = start; ranges = (l, h) ∷ rs })).ranges
      ≡ (a, max_uint64) ∷ (l, h) ∷ rs
unfolding add scan write
add_max_lem start a l h rs v ha am = ground arith

-- A range inside a range of the store, with room on both sides, is stored a second time: the store
-- is no longer in order, and the gap that Next finds after the first range ends before it begins.
pub add_inside :
    (start a b l h : ℕ)
    → start ≤ l
    → l < a
    → a ≤ b
    → b + 1 < h
    → h < max_uint64
    → let i = add a b (record { start = start; ranges = (l, h) ∷ [] }) in
      (i.ranges ≡ (l, h) ∷ (a, b) ∷ []) × ¬ IsValid i × (l ≡ start → (next 0 i).1 < (next 0 i).0)
unfolding next
add_inside start a b l h sl la ab bh hm =
    let e = add_inside_lem start a b l h sl la ab bh hm in
    (
      e,
      rw (start-add a b (record { start = start; ranges = (l, h) ∷ [] }), e) (λ v. omega arith),
      λ k.
          rw (start-add a b (record { start = start; ranges = (l, h) ∷ [] }), e)
            (gap_inside start a l h b k la (omega arith) hm),
    )

-- A range that ends at the largest uint64 is put in front of a first range that it does not touch,
-- and joined with none: the sum of its end and 1 wraps to 0, which ends the loop at once.
pub add_max :
    (start a l h : ℕ) (rs : List Range)
    → IsSorted start ((l, h) ∷ rs)
    → h + 1 < a
    → a ≤ max_uint64
    → let i = add a max_uint64 (record { start = start; ranges = (l, h) ∷ rs }) in
      (i.ranges ≡ (a, max_uint64) ∷ (l, h) ∷ rs) × ¬ IsValid i
add_max start a l h rs v ha am =
    let e = add_max_lem start a l h rs v ha am in
    (
      e,
      rw (start-add a max_uint64 (record { start = start; ranges = (l, h) ∷ rs }), e)
          (λ k. omega arith),
    )
