-- ===== src/Reserve/Tiers.antt =====
-- The rules of the tiers (pkg/postage/batchstore/reserve.go).
use sana.Common.{ℕ, ◌≤◌, ◌<◌, ◌≡◌, refl, arith}
use sana.Common.Int.{ℤ, pos, ◌-ℤ◌, ◌≤ℤ◌, ◌<ℤ◌}
use sana.Common.Word.{wrap64}
use sana.PeerSlice.Distance.{max_po}
use sana.Reserve.State.{
  ReserveState, Tier, unreserved, inner, outer, tier_of, radius_of, set_limits, change, size,
}

abbrev pub rank : Tier → ℕ
rank unreserved = 0
rank inner = 1
rank outer = 2

-- The inner limit is at most the outer one, and both are 0 until the first batch.
pub record IsOrdered (rs : ReserveState) : Type 0 where
  pub not_negative : pos 0 ≤ℤ rs.inner_limit
  pub ordered : rs.inner_limit ≤ℤ rs.outer_limit
  pub both_zero : rs.inner_limit ≡ pos 0 → rs.outer_limit ≡ pos 0

tier_mono : (rs : ReserveState) (x y : ℤ) → x ≤ℤ y → rank (tier_of rs x) ≤ rank (tier_of rs y)
unfolding tier_of
tier_mono rs x y h = ground arith

radius_anti :
    (rs : ReserveState) (s t : Tier)
    → 0 < rs.radius
    → rs.radius ≤ max_po
    → rank s ≤ rank t
    → radius_of rs t ≤ radius_of rs s
unfolding radius_of
radius_anti rs s t p m h = ground arith

-- Of two batches, the one with the higher value is kept at least as far: its tier is not lower, and
-- its radius not larger, for a radius of responsibility from 1 to MaxPO.
pub tier_of_mono :
    (rs : ReserveState) (x y : ℤ)
    → 0 < rs.radius
    → rs.radius ≤ max_po
    → x ≤ℤ y
    → (rank (tier_of rs x) ≤ rank (tier_of rs y))
      × (radius_of rs (tier_of rs y) ≤ radius_of rs (tier_of rs x))
tier_of_mono rs x y p m h =
    let r = tier_mono rs x y h in (r, radius_anti rs (tier_of rs x) (tier_of rs y) p m r)

-- After set_limits, the tier that it gives is the tier of the value under the new limits.
set_limits-tier_of :
    (rs : ReserveState) (v : ℤ)
    → IsOrdered rs
    → pos 0 <ℤ v
    → let (t, limits) = set_limits rs v (tier_of rs v) in (tier_of limits v ≡ t) × (0 < rank t)
unfolding tier_of set_limits
set_limits-tier_of rs v o h = ground (arith, o)

set_limits-IsOrdered :
    (rs : ReserveState) (v : ℤ)
    → IsOrdered rs
    → pos 0 <ℤ v
    → IsOrdered (set_limits rs v (tier_of rs v)).1
unfolding tier_of set_limits
set_limits-IsOrdered rs v o h = record {
  not_negative = ground (arith, o.not_negative);
  ordered = ground (arith, o.ordered, o.both_zero);
  both_zero = ground (arith, o.ordered, o.both_zero);
}

radius-set_limits :
    (rs : ReserveState) (v : ℤ) (t : Tier) → (set_limits rs v t).1.radius ≡ rs.radius
unfolding set_limits
radius-set_limits rs v t = ground arith

size-radius :
    (rs limits : ReserveState) (d : ℕ) (t : Tier)
    → limits.radius ≡ rs.radius
    → size limits d t ≡ size rs d t
unfolding size
size-radius rs limits d t e = rw e refl

-- change, for ordered limits and a new value above 0: the batch has a place in the reserve under the
-- new limits, which are ordered; the radius is that of its tier there; and the capacity changes by
-- what it took up under the old limits less what it takes up under the new ones, on int64.
pub change-tier_of :
    (rs : ReserveState) (oldv newv : ℤ) (old_depth new_depth : ℕ)
    → IsOrdered rs
    → pos 0 <ℤ newv
    → let ((capacity, radius), limits) = change rs oldv newv old_depth new_depth in
      IsOrdered limits
      × (0 < rank (tier_of limits newv))
      × (radius ≡ radius_of limits (tier_of limits newv))
      × (capacity
          ≡ wrap64
              (size rs old_depth (tier_of rs oldv) -ℤ size limits new_depth (tier_of limits newv)))
unfolding change
change-tier_of rs oldv newv od nd o h =
    let new = set_limits rs newv (tier_of rs newv) in
    let (same, kept) = set_limits-tier_of rs newv o h in
    rw same (
      set_limits-IsOrdered rs newv o h,
      kept,
      refl,
      rw (size-radius rs new.1 od (tier_of rs oldv) (radius-set_limits rs newv (tier_of rs newv)))
          refl,
    )
