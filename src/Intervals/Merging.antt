-- ===== src/Intervals/Merging.antt =====
-- add as a merge of a list of ranges in order (pkg/intervalstore/intervals.go): a description with
-- no index and no loop variable, and the proof that add follows it.
use mathlib.Core.List.{append_assoc}
use sana.Common.{
  ℕ, suc, ◌+◌, ◌≤◌, ◌<◌, ◌≡◌, refl, ◌⊎◌, inl, inr, none, some, List, [], ◌∷◌, ◌++◌, ltb,
  if◌then◌else◌, length, length-append, arith, Bool-cases,
}
use sana.Intervals.Store.{Range, Scan, max_uint64, scan, write_scan}
use sana.Intervals.Splice.{write_span, write_between}

abbrev pub larger : ℕ → ℕ → ℕ
larger a b = if ltb a b then b else a

abbrev pub smaller : ℕ → ℕ → ℕ
smaller a b = if ltb b a then b else a

-- [a, b] takes in the ranges that begin at `limit` or before.
unfoldable pub absorb : ℕ → ℕ → ℕ → List Range → List Range
absorb limit a b [] = (a, b) ∷ []
absorb limit a b ((l, h) ∷ rs) =
    if ltb limit l then (a, b) ∷ (l, h) ∷ rs else absorb limit a (larger b h) rs

-- [a, b] is put in its place, and joined with all that it overlaps or is next to.
unfoldable pub insert : ℕ → ℕ → List Range → List Range
insert a b [] = (a, b) ∷ []
insert a b ((l, h) ∷ rs) =
    if ltb (h + 1) a
    then (l, h) ∷ insert a b rs
    else if ltb (b + 1) l
    then (a, b) ∷ (l, h) ∷ rs
    else absorb (b + 1) (smaller a l) (larger b h) rs

-- In order from `low` on, with a gap between neighbours, and below the largest uint64.
abbrev pub IsSorted : ℕ → List Range → Type 0
IsSorted low [] = Unit {0}
IsSorted low ((l, h) ∷ rs) = (low ≤ l) × (l ≤ h) × (h < max_uint64) × IsSorted (h + 2) rs

-- No range has [a, b] inside it with room on both sides.
abbrev pub Outside : ℕ → ℕ → List Range → Type 0
Outside a b [] = Unit {0}
Outside a b ((l, h) ∷ rs) = ((a ≤ l) ⊎ (h ≤ b + 1)) × Outside a b rs

-- The variables of the loop, once a range was met: `x` is the index of the last range that was.
abbrev met : ℕ → ℕ → ℕ → ℕ → Scan
met a b m x = record { start = a; end = b; min_start = some m; max_end = some x; j = suc x }

abbrev pub unmet : ℕ → ℕ → ℕ → Scan
unmet a b j = record { start = a; end = b; min_start = none; max_end = none; j = j }

-- One round of the loop when [a, b] already met a range.
met_round :
    (limit a b m x l h : ℕ) (rs : List Range)
    → a ≤ l
    → l ≤ h
    → limit ≤ b + 1
    → b < max_uint64
    → h < max_uint64
    → (limit ≡ b + 1) ⊎ (b + 2 ≤ l)
    → scan limit ((l, h) ∷ rs) (met a b m x)
      ≡ (if ltb limit l then met a b m x else scan limit rs (met a (larger b h) m (suc x)))
unfolding scan
met_round limit a b m x l h rs al lh lb bm hm c = ground arith

unmet_round :
    (a b j l h : ℕ) (rs : List Range)
    → a ≤ b
    → l ≤ h
    → b < max_uint64
    → h < max_uint64
    → (a ≤ l) ⊎ (h ≤ b + 1)
    → scan (b + 1) ((l, h) ∷ rs) (unmet a b j) ≡ (
        if ltb (h + 1) a
        then scan (b + 1) rs (unmet a b (suc j))
        else if ltb (b + 1) l
        then unmet a b j
        else scan (b + 1) rs (met (smaller a l) (larger b h) j j))
unfolding scan
unmet_round a b j l h rs ab lh bm hm c = ground arith

scan-nil : (limit : ℕ) (s : Scan) → scan limit [] s ≡ s
unfolding scan
scan-nil limit s = refl

-- From a range that was met on, the loop and the write absorb what follows.
met-scan :
    (limit a b low : ℕ) (pre : List Range) (r : Range) (mid rs : List Range) (x : ℕ)
    → suc x ≡ length (pre ++ r ∷ mid)
    → IsSorted low rs
    → a ≤ low
    → limit ≤ b + 1
    → b < max_uint64
    → (limit ≡ b + 1) ⊎ (b + 2 ≤ low)
    → write_scan (scan limit rs (met a b (length pre) x)) (pre ++ r ∷ (mid ++ rs))
      ≡ pre ++ absorb limit a b rs
unfolding absorb
met-scan limit a b low pre r mid [] x e s al lb bm c =
    rw (scan-nil limit (met a b (length pre) x)) (write_span pre r mid [] a b (suc x) x e)
met-scan limit a b low pre r mid ((l, h) ∷ rs) x e s al lb bm c =
    let next =
      met-scan limit a (larger b h) (h + 2) pre r (mid ++ (l, h) ∷ []) rs (suc x)
        (omega (
          arith,
          e,
          length-append pre (r ∷ mid),
          length-append pre (r ∷ (mid ++ (l, h) ∷ [])),
          length-append mid ((l, h) ∷ []),
        ))
        s.3 (ground arith) (ground arith) (ground arith) (ground arith) in
    let round =
      met_round limit a b (length pre) x l h rs (omega arith) s.1 lb bm s.2 (omega arith) in
    rw round (elim (Bool-cases (ltb limit l)) [
      | inl past ↦ rw past (write_span pre r mid ((l, h) ∷ rs) a b (suc x) x e)
      | inr in_reach ↦ rw (in_reach, ← append_assoc mid ((l, h) ∷ []) rs) next
    ])

-- Before any range is met, the loop passes over what lies before [a, b].
pub unmet-scan :
    (a b low : ℕ) (pre rs : List Range) (j : ℕ)
    → j ≡ length pre
    → IsSorted low rs
    → Outside a b rs
    → a ≤ b
    → b < max_uint64
    → write_scan (scan (b + 1) rs (unmet a b j)) (pre ++ rs) ≡ pre ++ insert a b rs
unfolding insert
unmet-scan a b low pre [] j e s o ab bm =
    rw (scan-nil (b + 1) (unmet a b j), e) (write_between pre [] a b)
unmet-scan a b low pre ((l, h) ∷ rs) j e s o ab bm =
    rw (unmet_round a b j l h rs ab s.1 bm s.2 o.0) (elim (Bool-cases (ltb (h + 1) a)) [
      | inl before ↦
          rw
            (
              before,
              ← append_assoc pre ((l, h) ∷ []) rs,
              ← append_assoc pre ((l, h) ∷ []) (insert a b rs),
            )
            (unmet-scan a b (h + 2) (pre ++ (l, h) ∷ []) rs (suc j)
              (omega (arith, e, length-append pre ((l, h) ∷ []))) s.3 o.1 ab bm)
      | inr near ↦ rw near (elim (Bool-cases (ltb (b + 1) l)) [
        | inl after ↦ rw (after, e) (write_between pre ((l, h) ∷ rs) a b)
        | inr meets ↦
            rw (meets, e)
              (met-scan (b + 1) (smaller a l) (larger b h) (h + 2) pre (l, h) [] rs (length pre)
                (omega (arith, length-append pre ((l, h) ∷ []))) s.3 (ground arith) (ground arith)
                (ground arith) (ground arith))
      ])
    ])
