-- ===== src/PeerSlice/Distance.antt =====
-- Proximity, ExtendedProximity (pkg/swarm/proximity.go), DistanceRaw and DistanceCmp
-- (pkg/swarm/distance.go). An address is a list of bytes.
use sana.Common.{
  ℕ, zero, suc, ◌+◌, ◌-◌, ◌*◌, ◌/◌, ◌%◌, ◌^◌, ◌≡◌, refl, Bool, true, false, ◌&&◌, Option, none,
  some, List, [], ◌∷◌, ltb, ◌==◌, if◌then◌else◌, length, arith,
}
use mathlib.Core.Option
use sana.Common.Word.{u8_mod}

abbrev pub Address : Type 0
Address = List ℕ

-- bytes.Equal
abbrev pub equal : Address → Address → Bool
equal [] [] = true
equal [] (_ ∷ _) = false
equal (_ ∷ _) [] = false
equal (x ∷ xs) (y ∷ ys) = (x == y) && equal xs ys

-- The bit of x ^ y with this weight, a power of 2.
abbrev pub xor_bit : ℕ → ℕ → ℕ → ℕ
xor_bit x y weight = (x / weight + y / weight) % 2

-- x ^ y for bytes
unfoldable pub xor : ℕ → ℕ → ℕ
xor x y =
    128 * xor_bit x y 128
    + 64 * xor_bit x y 64
    + 32 * xor_bit x y 32
    + 16 * xor_bit x y 16
    + 8 * xor_bit x y 8
    + 4 * xor_bit x y 4
    + 2 * xor_bit x y 2
    + xor_bit x y 1

-- The loop over the bits of one byte, from bit j on; `n` bits are left. `none` if no bit is set.
unfoldable pub first_bit : ℕ → ℕ → ℕ → Option ℕ
first_bit zero j oxo = none
first_bit (suc n) j oxo =
    let rest = first_bit n (j + 1) oxo in if (oxo / 2 ^ (7 - j)) % 2 == 0 then rest else some j

-- The result at byte `i`, whose first bit that differs is `bit`.
abbrev pub at_byte : ℕ → Option ℕ → Option ℕ → Option ℕ
at_byte i none rest = rest
at_byte i (some j) rest = some ((i * 8 + j) % u8_mod)

-- The loop over the bytes; `n` bytes are left, and `i` is the index of the first of them.
unfoldable pub first_difference : ℕ → ℕ → Address → Address → Option ℕ
first_difference zero i xs ys = none
first_difference (suc n) i [] ys = none
first_difference (suc n) i (x ∷ xs) [] = none
first_difference (suc n) i (x ∷ xs) (y ∷ ys) =
    at_byte i (first_bit 8 0 (xor x y)) (first_difference n ((i + 1) % u8_mod) xs ys)

abbrev pub cap_length : ℕ → Address → ℕ
cap_length b xs = if ltb (length xs % u8_mod) b then length xs % u8_mod else b

abbrev pub or_max : ℕ → Option ℕ → ℕ
or_max max none = max
or_max max (some po) = po

-- Proximity with its largest value as an argument.
unfoldable pub proximity_up_to : ℕ → Address → Address → ℕ
proximity_up_to max one other =
    or_max max (first_difference (cap_length (cap_length (max / 8 + 1) one) other) 0 one other)

abbrev pub max_po : ℕ
max_po = 31

abbrev pub extended_po : ℕ
extended_po = max_po + 5

unfoldable pub proximity : Address → Address → ℕ
proximity = proximity_up_to max_po

unfoldable pub extended_proximity : Address → Address → ℕ
extended_proximity = proximity_up_to extended_po

abbrev pub raw : Address → Address → List ℕ
raw [] _ = []
raw (_ ∷ _) [] = []
raw (x ∷ xs) (y ∷ ys) = xor x y ∷ raw xs ys

-- `none` for addresses of different lengths
unfoldable pub distance_raw : Address → Address → Option (List ℕ)
distance_raw x y = if length x == length y then some (raw x y) else none

-- big.Int.SetBytes, big-endian
abbrev pub set_bytes : List ℕ → ℕ
set_bytes [] = 0
set_bytes (b ∷ bs) = b * 256 ^ length bs + set_bytes bs

-- Distance; `none` for addresses of different lengths
unfoldable pub distance : Address → Address → Option ℕ
unfolding distance_raw
distance x y = Option.map set_bytes (distance_raw x y)

-- Which of the two other addresses is closer to the first?
pub data Closer : Type 0 where
  first : Closer
  equally : Closer
  second : Closer

abbrev pub compare_bytes : Address → Address → Address → Closer
compare_bytes [] _ _ = equally
compare_bytes (a ∷ bs) [] _ = equally
compare_bytes (a ∷ bs) (x ∷ xs) [] = equally
compare_bytes (a ∷ bs) (x ∷ xs) (y ∷ ys) =
    if xor x a == xor y a
    then compare_bytes bs xs ys
    else if ltb (xor x a) (xor y a)
    then first
    else second

unfoldable pub distance_cmp : Address → Address → Address → Option Closer
distance_cmp a x y =
    if (length a == length x) && (length a == length y) then some (compare_bytes a x y) else none

pub equal→≡ : (xs ys : Address) → equal xs ys ≡ true → xs ≡ ys
equal→≡ [] [] h = refl
equal→≡ [] (y ∷ ys) h = ground arith
equal→≡ (x ∷ xs) [] h = ground arith
equal→≡ (x ∷ xs) (y ∷ ys) h = ground (arith, equal→≡ xs ys)

pub equal_refl : (xs : Address) → equal xs xs ≡ true
equal_refl [] = refl
equal_refl (x ∷ xs) = ground (arith, equal_refl xs)
