-- ===== src/Intervals/Store.antt =====
-- `Intervals` and its methods Add, Merge, Next and Last (pkg/intervalstore/intervals.go). Values are
-- uint64: sums and differences wrap.
use sana.Common.{
  ℕ, ◌+◌, ◌-◌, ◌%◌, Bool, true, false, not, ◌&&◌, ◌||◌, Option, none, some, List, [], ◌∷◌, ◌++◌,
  ltb, leb, ◌==◌, if◌then◌else◌, get_or, set, take, drop,
}
use sana.Common.Word.{u64_mod}

-- A range [first, last]; both ends belong to it.
abbrev pub Range : Type 0
Range = ℕ × ℕ

pub record Intervals : Type 0 where
  pub start : ℕ
  pub ranges : List Range

unfoldable pub new_intervals : ℕ → Intervals
new_intervals start = record { start = start; ranges = [] }

abbrev pub max_uint64 : ℕ
max_uint64 = u64_mod - 1

-- x + 1 and x - 1 on uint64
abbrev pub succ64 : ℕ → ℕ
succ64 x = (x + 1) % u64_mod

abbrev pub pred64 : ℕ → ℕ
pred64 x = (x + max_uint64) % u64_mod

-- The variables of the loop in add; `none` stands for -1.
pub record Scan : Type 0 where
  pub start : ℕ
  pub end : ℕ
  pub min_start : Option ℕ
  pub max_end : Option ℕ
  pub j : ℕ

abbrev pub is_none : Option ℕ → Bool
is_none none = true
is_none (some _) = false

abbrev pub touches_start : ℕ → ℕ → Range → Bool
touches_start start end_check (l, h) =
    (leb start l && leb l end_check) || (leb start (succ64 h) && leb h end_check)

abbrev pub touches_end : ℕ → ℕ → Range → Bool
touches_end start end_check (l, h) =
    (leb start h && leb h end_check) || (leb start l && leb l end_check)

unfoldable pub scan_start : ℕ → Range → Scan → Scan
scan_start end_check r s =
    if is_none s.min_start && touches_start s.start end_check r
    then record s { start = if ltb r.0 s.start then r.0 else s.start; min_start = some s.j }
    else s

unfoldable pub scan_end : ℕ → Range → Scan → Scan
scan_end end_check r s =
    if touches_end s.start end_check r
    then record s { end = if ltb s.end r.1 then r.1 else s.end; max_end = some s.j }
    else s

-- The loop over the ranges that are left.
unfoldable pub scan : ℕ → List Range → Scan → Scan
unfolding scan_start scan_end
scan end_check [] s = s
scan end_check (r ∷ rs) s =
    let t = scan_end end_check r (scan_start end_check r s) in
    let rest = scan end_check rs (record t { j = t.j + 1 }) in
    if leb (succ64 t.end) r.0 then t else rest

abbrev pub set_first : ℕ → ℕ → List Range → List Range
set_first i v rs = set rs i (v, (get_or rs i (0, 0)).1)

abbrev pub set_last : ℕ → ℕ → List Range → List Range
set_last i v rs = set rs i ((get_or rs i (0, 0)).0, v)

-- What the loop found is written into the ranges, by the two indices.
unfoldable pub write : Option ℕ → Option ℕ → ℕ → ℕ → ℕ → List Range → List Range
write none none start end j rs = take j rs ++ (start, end) ∷ drop j rs
write (some m) none start end j rs = set_first m start rs
write none (some x) start end j rs = set_last x end rs
write (some m) (some x) start end j rs =
    let both = set_last x end (set_first m start rs) in
    if m == x then both else take m (set_first x start both) ++ drop x (set_first x start both)

abbrev pub write_scan : Scan → List Range → List Range
write_scan s rs = write s.min_start s.max_end s.start s.end s.j rs

abbrev pub end_check : ℕ → ℕ
end_check end = if end == max_uint64 then end else succ64 end

-- add, and Add, which is add under the lock
unfoldable pub add : ℕ → ℕ → Intervals → Intervals
add start end i =
    let from = if ltb start i.start then i.start else start in
    let found =
      scan (end_check end) i.ranges
        (record { start = from; end = end; min_start = none; max_end = none; j = 0 }) in
    if ltb end i.start then i else record i { ranges = write_scan found i.ranges }

-- The loop of Merge over the ranges of the other intervals.
unfoldable pub add_all : List Range → Intervals → Intervals
add_all [] i = i
add_all ((l, h) ∷ rs) i = add_all rs (add l h i)

unfoldable pub merge : Intervals → Intervals → Intervals
merge m i = add_all m.ranges i

abbrev pub after : ℕ → List Range → ℕ × ℕ
after h [] = (succ64 h, 0)
after h ((l, _) ∷ _) = (succ64 h, pred64 l)

-- The first gap, before the ceiling is applied; an end of 0 stands for no limit.
unfoldable pub gap : ℕ → List Range → ℕ × ℕ
gap start [] = (start, 0)
gap start ((l, h) ∷ rs) = if not (l == start) then (start, pred64 l) else after h rs

abbrev ceil : ℕ → ℕ × ℕ → ℕ × ℕ × Bool
ceil ceiling (start, end) =
    let hit_start = ltb ceiling start in
    let hit_end = end == 0 || ltb ceiling end in
    if ltb 0 ceiling
    then (
      (if hit_start then ceiling else start),
      (if hit_end then ceiling else end),
      hit_start && hit_end,
    )
    else (start, end, false)

unfoldable pub next : ℕ → Intervals → ℕ × ℕ × Bool
unfolding gap
next ceiling i = ceil ceiling (gap i.start i.ranges)

last_of : List Range → ℕ
last_of [] = 0
last_of (r ∷ []) = r.1
last_of (r ∷ r' ∷ rs) = last_of (r' ∷ rs)

unfoldable pub last : Intervals → ℕ
unfolding last_of
last i = last_of i.ranges
