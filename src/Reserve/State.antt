-- ===== src/Reserve/State.antt =====
-- `reserveState`, `tier` and exp2 (pkg/postage/batchstore/reserve.go). Values of batches are
-- integers, depths and radii uint8, and sizes int64.
use sana.Common.{ℕ, zero, suc, ◌+◌, ◌-◌, ◌%◌, ◌||◌, ltb, ◌==◌, if◌then◌else◌}
use sana.Common.Int.{ℤ, pos, ◌-ℤ◌, ◌*ℤ◌, ltb_ℤ, eqb_ℤ}
use sana.Common.Word.{u8_mod, wrap64}
use sana.PeerSlice.Distance.{max_po}

pub record ReserveState : Type 0 where
  pub radius : ℕ
  pub storage_radius : ℕ
  pub available : ℤ
  pub outer_limit : ℤ
  pub inner_limit : ℤ

pub data Tier : Type 0 where
  unreserved : Tier
  inner : Tier
  outer : Tier

-- The loop of exp2, with `n` rounds left.
unfoldable pub double_times : ℕ → ℤ → ℤ
double_times zero b = b
double_times (suc n) b = double_times n (wrap64 (b *ℤ pos 2))

unfoldable pub exp2 : ℕ → ℤ
exp2 e = if e == 0 then pos 1 else double_times (e - 1) (pos 2)

-- a - b on uint8
abbrev pub sub8 : ℕ → ℕ → ℕ
sub8 a b = (a + (u8_mod - b)) % u8_mod

abbrev pub default_depth : ℕ
default_depth = 12

abbrev pub capacity : ℤ
capacity = exp2 22

-- The state that New starts from when nothing is stored.
unfoldable pub new_state : ReserveState
new_state = record {
  radius = default_depth;
  storage_radius = 0;
  available = capacity;
  outer_limit = pos 0;
  inner_limit = pos 0;
}

unfoldable pub tier_of : ReserveState → ℤ → Tier
tier_of rs x =
    if ltb_ℤ x rs.inner_limit || eqb_ℤ rs.inner_limit (pos 0)
    then unreserved
    else if ltb_ℤ x rs.outer_limit
    then inner
    else outer

abbrev pub size_in : ℤ → Tier → ℤ
size_in size inner = size
size_in size outer = wrap64 (size *ℤ pos 2)
size_in size unreserved = pos 0

unfoldable pub size : ReserveState → ℕ → Tier → ℤ
size rs depth t = size_in (exp2 (sub8 (sub8 depth rs.radius) 1)) t

unfoldable pub radius_of : ReserveState → Tier → ℕ
radius_of rs unreserved = max_po
radius_of rs inner = rs.radius
radius_of rs outer = sub8 rs.radius 1

-- setLimits for a value that is not in the reserve.
abbrev pub lower_limits : ReserveState → ℤ → Tier × ReserveState
lower_limits rs val =
    if eqb_ℤ rs.inner_limit (pos 0) || ltb_ℤ val rs.inner_limit
    then (if eqb_ℤ rs.outer_limit rs.inner_limit
        then (outer, record rs { outer_limit = val; inner_limit = val })
        else (inner, record rs { inner_limit = val }))
    else (unreserved, rs)

unfoldable pub set_limits : ReserveState → ℤ → Tier → Tier × ReserveState
set_limits rs val unreserved = lower_limits rs val
set_limits rs val inner = (inner, rs)
set_limits rs val outer = (outer, rs)

-- change: the change of the capacity, the radius, and the new limits.
unfoldable pub change : ReserveState → ℤ → ℤ → ℕ → ℕ → (ℤ × ℕ) × ReserveState
change rs oldv newv old_depth new_depth =
    let old_tier = tier_of rs oldv in
    let (new_tier, limits) = set_limits rs newv (tier_of rs newv) in
    (
      (
        wrap64 (size limits old_depth old_tier -ℤ size limits new_depth new_tier),
        radius_of limits new_tier,
      ),
      limits,
    )

-- The radius of a batch that Get of the store gives (pkg/postage/batchstore/store.go).
unfoldable pub batch_radius : ReserveState → ℤ → ℕ
batch_radius rs value =
    if ltb rs.storage_radius rs.radius then rs.storage_radius else radius_of rs (tier_of rs value)
