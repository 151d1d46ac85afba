-- ===== src/PeerSlice/Proximity.antt =====
-- The range of Proximity and ExtendedProximity, and DistanceCmp
-- (pkg/swarm/proximity.go, pkg/swarm/distance.go).
use sana.Common.{
  ℕ, zero, suc, ◌+◌, ◌*◌, ◌/◌, ◌%◌, ◌≤◌, ◌<◌, ◌≡◌, refl, ap, Option, none, some, [], ◌∷◌, length,
  arith, Option-cases, inl, inr,
}
use sana.Common.Word.{u8_mod}
use sana.PeerSlice.Distance.{
  Address, xor, first_bit, first_difference, at_byte, proximity_up_to, cap_length, or_max,
  proximity, extended_proximity, max_po, extended_po,
}

first_bit_below : (n j oxo k : ℕ) → first_bit n j oxo ≡ some k → k < j + n
unfolding first_bit
first_bit_below zero j oxo k h = ground arith
first_bit_below (suc n) j oxo k h = ground (arith, first_bit_below n (j + 1) oxo k)

at_byte_below :
    (i n p : ℕ) (bit rest : Option ℕ)
    → at_byte i bit rest ≡ some p
    → i + 1 + n ≤ 32
    → ((k : ℕ) → bit ≡ some k → k < 8)
    → (rest ≡ some p → p < 8 * (i + 1 + n))
    → p < 8 * (i + 1 + n)
at_byte_below i n p none rest h k b r = r h
at_byte_below i n p (some j) rest h k b r = let c = b j refl in ground arith

first_difference_below :
    (n i : ℕ) (xs ys : Address) (p : ℕ)
    → i + n ≤ 32
    → first_difference n i xs ys ≡ some p
    → p < 8 * (i + n)
unfolding first_difference
first_difference_below zero i xs ys p k h = ground arith
first_difference_below (suc n) i [] ys p k h = ground arith
first_difference_below (suc n) i (x ∷ xs) [] p k h = ground arith
first_difference_below (suc n) i (x ∷ xs) (y ∷ ys) p k h =
    let next : (i + 1) % u8_mod ≡ i + 1 = omega arith in
    let e : i + suc n ≡ i + 1 + n = omega arith in
    rw e (
      at_byte_below i n p (first_bit 8 0 (xor x y)) (first_difference n ((i + 1) % u8_mod) xs ys) h
        (omega arith) (λ j. first_bit_below 8 0 (xor x y) j)
        (rw next (first_difference_below n (i + 1) xs ys p (omega arith))))

cap_length_below : (b : ℕ) (xs : Address) → cap_length b xs ≤ b
cap_length_below b xs = ground arith

proximity_below :
    (max : ℕ) (xs ys : Address) → max < 248 → proximity_up_to max xs ys < 8 * (max / 8 + 1)
unfolding proximity_up_to
proximity_below max xs ys h =
    let n = cap_length (cap_length (max / 8 + 1) xs) ys in
    let a = cap_length_below (max / 8 + 1) xs in
    let b = cap_length_below (cap_length (max / 8 + 1) xs) ys in
    elim (Option-cases (first_difference n 0 xs ys)) [
      | inl e ↦ rw e (omega arith)
      | inr (p, e) ↦
          rw e (let d = first_difference_below n 0 xs ys p (omega arith) e in omega arith)
    ]

xor_comm : (x y : ℕ) → xor x y ≡ xor y x
unfolding xor
xor_comm x y = omega arith

first_difference_comm :
    (n i : ℕ) (xs ys : Address) → first_difference n i xs ys ≡ first_difference n i ys xs
unfolding first_difference
first_difference_comm zero i xs ys = refl
first_difference_comm (suc n) i [] [] = refl
first_difference_comm (suc n) i [] (y ∷ ys) = refl
first_difference_comm (suc n) i (x ∷ xs) [] = refl
first_difference_comm (suc n) i (x ∷ xs) (y ∷ ys) =
    rw (first_difference, xor_comm x y, first_difference_comm n ((i + 1) % u8_mod) xs ys) refl

cap_length_comm :
    (b : ℕ) (xs ys : Address) → cap_length (cap_length b xs) ys ≡ cap_length (cap_length b ys) xs
cap_length_comm b xs ys = ground arith

-- Proximity is at most MaxPO and the same in both directions.
pub proximity_range :
    (xs ys : Address) → (proximity xs ys ≤ max_po) × (proximity xs ys ≡ proximity ys xs)
unfolding proximity proximity_up_to
proximity_range xs ys =
    let b = proximity_below max_po xs ys (omega arith) in
    (
      omega arith,
      rw (cap_length_comm (max_po / 8 + 1) xs ys) (
          ap (or_max max_po)
            (first_difference_comm (cap_length (cap_length (max_po / 8 + 1) ys) xs) 0 xs ys)),
    )

xor_self : (x : ℕ) → xor x x ≡ 0
unfolding xor
xor_self x = omega arith

no_bit : first_bit 8 0 0 ≡ none
unfolding first_bit
no_bit = refl

last_bit : first_bit 8 0 1 ≡ some 7
unfolding first_bit
last_bit = refl

first_difference_self : (n i : ℕ) (xs : Address) → first_difference n i xs xs ≡ none
unfolding first_difference
first_difference_self zero i xs = refl
first_difference_self (suc n) i [] = refl
first_difference_self (suc n) i (x ∷ xs) =
    rw (first_difference, xor_self x, no_bit, first_difference_self n ((i + 1) % u8_mod) xs) refl

five_bytes :
    (a b c d e f : ℕ) (xs ys : Address)
    → xor e f ≡ 1
    → first_difference 5 0 (a ∷ b ∷ c ∷ d ∷ e ∷ xs) (a ∷ b ∷ c ∷ d ∷ f ∷ ys) ≡ some 39
unfolding first_difference
five_bytes a b c d e f xs ys h =
    rw (first_difference, xor_self a, xor_self b, xor_self c, xor_self d, h, no_bit, last_bit) refl

cap_five :
    (xs ys : Address)
    → 5 ≤ length xs
    → length xs < u8_mod
    → 5 ≤ length ys
    → length ys < u8_mod
    → cap_length (cap_length (extended_po / 8 + 1) xs) ys ≡ 5
cap_five xs ys a b c d = ground arith

-- ExtendedProximity of two addresses, of at most 255 bytes, that first differ in the last bit of
-- the fifth byte is 39, above ExtendedPO, while that of an address with itself is ExtendedPO.
pub extended_proximity_above :
    (a b c d e f : ℕ) (xs ys : Address)
    → xor e f ≡ 1
    → length xs + 5 < u8_mod
    → length ys + 5 < u8_mod
    → let x = a ∷ b ∷ c ∷ d ∷ e ∷ xs in
      let y = a ∷ b ∷ c ∷ d ∷ f ∷ ys in
      (extended_proximity x y ≡ 39) × (extended_proximity x x ≡ extended_po)
unfolding extended_proximity proximity_up_to
extended_proximity_above a b c d e f xs ys h m n =
    let x = a ∷ b ∷ c ∷ d ∷ e ∷ xs in
    let y = a ∷ b ∷ c ∷ d ∷ f ∷ ys in
    (
      rw (cap_five x y (omega arith) (omega arith) (omega arith) (omega arith))
          (ap (or_max extended_po) (five_bytes a b c d e f xs ys h)),
      ap (or_max extended_po)
          (first_difference_self (cap_length (cap_length (extended_po / 8 + 1) x) x) 0 x),
    )
