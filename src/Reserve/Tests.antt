-- ===== src/Reserve/Tests.antt =====
-- The theorems on the reserve at concrete states (pkg/postage/batchstore/reserve.go).
use sana.Common.{◌≡◌, refl, some, length, replicate, arith}
use sana.Common.Int.{pos, ◌-ℤ◌, ◌*ℤ◌}
use sana.Common.Word.{wrap64}
use sana.Reserve.State.{
  ReserveState, tier_of, radius_of, size, change, exp2, double_times, set_limits,
}
use sana.Reserve.Tiers.{IsOrdered}
use sana.Reserve.Items.{UnreserveItem, marshal, unmarshal, unmarshal-marshal}

abbrev limits : ReserveState
limits = record {
  radius = 4;
  storage_radius = 2;
  available = pos 100;
  outer_limit = pos 9;
  inner_limit = pos 5;
}

limits-IsOrdered : IsOrdered limits
limits-IsOrdered = record {
  not_negative = omega arith;
  ordered = omega arith;
  both_zero = λ e. ground arith;
}

-- From the inner tier at depth 8 to depth 9, below the old inner limit.
changed : (change limits (pos 7) (pos 3) 8 9).0 ≡ (◌-ℤ◌ (pos 8) (pos 16), 4)
unfolding change set_limits tier_of size exp2 double_times radius_of wrap64 ◌*ℤ◌ ◌-ℤ◌
changed = refl

abbrev item : UnreserveItem
item = record { batch_id = replicate 32 7; radius = 5 }

unmarshal-marshal_example : (unmarshal (marshal item) ≡ some item) × (length (marshal item) ≡ 33)
unmarshal-marshal_example = unmarshal-marshal item refl
