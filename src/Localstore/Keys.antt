-- ===== src/Localstore/Keys.antt =====
-- The index of garbage collection as a list of its keys in ascending order, AccessTimestamp|BinID|Hash
-- (gcIndex in pkg/localstore/localstore.go).
use sana.Common.{
  ℕ, suc, ◌≡◌, refl, ap, Bool, true, false, ◌&&◌, ◌||◌, List, [], ◌∷◌, ltb, ◌==◌, if◌then◌else◌,
  length, arith, Bool-cases, inl, inr,
}

pub record GcKey : Type 0 where
  pub access : ℕ
  pub bin : ℕ
  pub address : ℕ

unfoldable pub same_key : GcKey → GcKey → Bool
same_key k j = (k.access == j.access) && (k.bin == j.bin) && (k.address == j.address)

-- The order of the keys' bytes.
unfoldable pub before : GcKey → GcKey → Bool
before k j =
    ltb k.access j.access
    || ((k.access == j.access)
        && (ltb k.bin j.bin || ((k.bin == j.bin) && ltb k.address j.address)))

unfoldable pub has_key : GcKey → List GcKey → Bool
has_key k [] = false
has_key k (j ∷ js) = same_key k j || has_key k js

unfoldable pub put_key : GcKey → List GcKey → List GcKey
put_key k [] = k ∷ []
put_key k (j ∷ js) =
    if same_key k j then j ∷ js else if before k j then k ∷ j ∷ js else j ∷ put_key k js

unfoldable pub delete_key : GcKey → List GcKey → List GcKey
delete_key k [] = []
delete_key k (j ∷ js) = if same_key k j then js else j ∷ delete_key k js

-- Every key of the list comes after this one.
abbrev pub Above : GcKey → List GcKey → Type 0
Above k [] = Unit {0}
Above k (j ∷ js) = (before k j ≡ true) × Above k js

abbrev pub IsAscending : List GcKey → Type 0
IsAscending [] = Unit {0}
IsAscending (j ∷ js) = Above j js × IsAscending js

before_trans : (i j k : GcKey) → before i j ≡ true → before j k ≡ true → before i k ≡ true
unfolding before
before_trans i j k h g = ground arith

before_not_same : (i j : GcKey) → before i j ≡ true → same_key i j ≡ false
unfolding before same_key
before_not_same i j h = ground arith

pub after_not_same : (i j : GcKey) → before i j ≡ true → same_key j i ≡ false
unfolding before same_key
after_not_same i j h = ground arith

same_before : (i j k : GcKey) → same_key i j ≡ true → before j k ≡ true → before i k ≡ true
unfolding before same_key
same_before i j k h g = ground arith

other_before : (i j : GcKey) → same_key i j ≡ false → before i j ≡ false → before j i ≡ true
unfolding before same_key
other_before i j h g = ground arith

pub same_key_refl : (k : GcKey) → same_key k k ≡ true
unfolding same_key
same_key_refl k = ground arith

pub same_key→≡ : (i j : GcKey) → same_key i j ≡ true → i ≡ j
unfolding same_key
same_key→≡ i j h = ground arith

Above-trans : (i j : GcKey) (js : List GcKey) → before i j ≡ true → Above j js → Above i js
Above-trans i j [] h a = tt
Above-trans i j (k ∷ js) h a = (before_trans i j k h a.0, Above-trans i j js h a.1)

-- A key that comes before all is not there.
Above-has_key : (k : GcKey) (js : List GcKey) → Above k js → has_key k js ≡ false
unfolding has_key
Above-has_key k [] a = refl
Above-has_key k (j ∷ js) a = rw (before_not_same k j a.0) (Above-has_key k js a.1)

pub length-put_key :
    (k : GcKey) (js : List GcKey)
    → IsAscending js
    → length (put_key k js) ≡ (if has_key k js then length js else suc (length js))
unfolding put_key has_key
length-put_key k [] a = refl
length-put_key k (j ∷ js) a = elim (Bool-cases (same_key k j)) [
  | inl e ↦ rw e refl
  | inr n ↦ elim (Bool-cases (before k j)) [
    | inl b ↦ rw (n, b, Above-has_key k js (Above-trans k j js b a.0)) refl
    | inr c ↦ rw (n, c) (let ih = length-put_key k js a.1 in ground arith)
  ]
]

pub length-delete_key :
    (k : GcKey) (js : List GcKey) → has_key k js ≡ true → suc (length (delete_key k js)) ≡ length js
unfolding delete_key has_key
length-delete_key k [] h = ground arith
length-delete_key k (j ∷ js) h = let ih = length-delete_key k js in ground arith

pub delete_absent : (k : GcKey) (js : List GcKey) → has_key k js ≡ false → delete_key k js ≡ js
unfolding delete_key has_key
delete_absent k [] h = refl
delete_absent k (j ∷ js) h = let ih = delete_absent k js in ground arith

Above-put_key :
    (i k : GcKey) (js : List GcKey) → before i k ≡ true → Above i js → Above i (put_key k js)
unfolding put_key
Above-put_key i k [] h a = (h, tt)
Above-put_key i k (j ∷ js) h a = elim (Bool-cases (same_key k j)) [
  | inl e ↦ rw e a
  | inr n ↦ elim (Bool-cases (before k j)) [
    | inl b ↦ rw (n, b) (h, a)
    | inr c ↦ rw (n, c) (a.0, Above-put_key i k js h a.1)
  ]
]

pub put_key-IsAscending :
    (k : GcKey) (js : List GcKey) → IsAscending js → IsAscending (put_key k js)
unfolding put_key
put_key-IsAscending k [] a = (tt, tt)
put_key-IsAscending k (j ∷ js) a = elim (Bool-cases (same_key k j)) [
  | inl e ↦ rw e a
  | inr n ↦ elim (Bool-cases (before k j)) [
    | inl b ↦ rw (n, b) ((b, Above-trans k j js b a.0), a)
    | inr c ↦
        rw (n, c) (Above-put_key j k js (other_before k j n c) a.0, put_key-IsAscending k js a.1)
  ]
]

Above-delete_key : (i k : GcKey) (js : List GcKey) → Above i js → Above i (delete_key k js)
unfolding delete_key
Above-delete_key i k [] a = tt
Above-delete_key i k (j ∷ js) a = elim (Bool-cases (same_key k j)) [
  | inl e ↦ rw e a.1
  | inr n ↦ rw n (a.0, Above-delete_key i k js a.1)
]

pub delete_key-IsAscending :
    (k : GcKey) (js : List GcKey) → IsAscending js → IsAscending (delete_key k js)
unfolding delete_key
delete_key-IsAscending k [] a = tt
delete_key-IsAscending k (j ∷ js) a = elim (Bool-cases (same_key k j)) [
  | inl e ↦ rw e a.1
  | inr n ↦ rw n (Above-delete_key j k js a.0, delete_key-IsAscending k js a.1)
]

pub has_key-put_key :
    (i k : GcKey) (js : List GcKey) → has_key i (put_key k js) ≡ (same_key i k || has_key i js)
unfolding put_key has_key
has_key-put_key i k [] = refl
has_key-put_key i k (j ∷ js) =
    let ih = has_key-put_key i k js in
    let e = same_key→≡ k j in
    let s : k ≡ j → same_key i k ≡ same_key i j = ap (same_key i) in ground (arith, ih)

-- Another key stays; the one that is deleted is gone, in an ascending list.
pub has_key-delete_other :
    (i k : GcKey) (js : List GcKey)
    → same_key i k ≡ false
    → has_key i (delete_key k js) ≡ has_key i js
unfolding delete_key has_key
has_key-delete_other i k [] h = refl
has_key-delete_other i k (j ∷ js) h = elim (Bool-cases (same_key k j)) [
  | inl e ↦ let s : same_key i j ≡ false = rw (← same_key→≡ k j e) h in rw (e, s) refl
  | inr n ↦ rw (n, has_key-delete_other i k js h) refl
]

pub has_key-delete_key :
    (k : GcKey) (js : List GcKey) → IsAscending js → has_key k (delete_key k js) ≡ false
unfolding delete_key has_key
has_key-delete_key k [] a = refl
has_key-delete_key k (j ∷ js) a = elim (Bool-cases (same_key k j)) [
  | inl e ↦ rw e (rw (same_key→≡ k j e) (Above-has_key j js a.0))
  | inr n ↦ let ih = has_key-delete_key k js a.1 in ground arith
]
