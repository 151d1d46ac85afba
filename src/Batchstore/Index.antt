-- ===== src/Batchstore/Index.antt =====
-- The index of values under the deletion and insertion of a key (pkg/postage/batchstore/store.go).
use sana.Common.{
  ℕ, ◌+◌, ◌≤◌, ◌≡◌, refl, ap, subst, Bool, true, false, ◌||◌, List, [], ◌∷◌, ◌==◌, inl, inr,
  Bool-cases, arith,
}
use sana.Batchstore.State.{same_key, before_key, delete_key, insert_key}
use sana.Batchstore.Outer.{All, AllFrom, IsSorted, AllFrom-le, room, used}
use sana.Batchstore.Below.{AllOther, Distinct}

abbrev pub has_key : ℕ × ℕ → List (ℕ × ℕ) → Bool
has_key k [] = false
has_key k (j ∷ js) = same_key j k || has_key k js

module _ (P : ℕ × ℕ → Type 0) where
  pub All-delete : (k : ℕ × ℕ) (keys : List (ℕ × ℕ)) → All P keys → All P (delete_key k keys)
  All-delete k [] h = tt
  All-delete k (j ∷ js) h = elim (Bool-cases (same_key j k)) [
    | inl y ↦ rw y h.1
    | inr n ↦ rw n (h.0, All-delete k js h.1)
  ]

  pub All-insert : (k : ℕ × ℕ) (keys : List (ℕ × ℕ)) → P k → All P keys → All P (insert_key k keys)
  All-insert k [] p h = (p, tt)
  All-insert k (j ∷ js) p h = elim (Bool-cases (same_key j k)) [
    | inl y ↦ rw y (p, h.1)
    | inr n ↦ elim (Bool-cases (before_key k j)) [
      | inl y ↦ rw (n, y) (p, h)
      | inr m ↦ rw (n, m) (h.0, All-insert k js p h.1)
    ]
  ]

module _ (P Q : ℕ × ℕ → Type 0) (f : (k : ℕ × ℕ) → P k → Q k) where
  pub All-map : (keys : List (ℕ × ℕ)) → All P keys → All Q keys
  All-map [] h = tt
  All-map (k ∷ keys) h = (f k h.0, All-map keys h.1)

module _ (P Q R : ℕ × ℕ → Type 0) (f : (k : ℕ × ℕ) → P k → Q k → R k) where
  pub All-both : (keys : List (ℕ × ℕ)) → All P keys → All Q keys → All R keys
  All-both [] h g = tt
  All-both (k ∷ keys) h g = (f k h.0 g.0, All-both keys h.1 g.1)

module _ (P : ℕ × ℕ → Type 0) where
  pub All-has_key : (k : ℕ × ℕ) (keys : List (ℕ × ℕ)) → has_key k keys ≡ true → All P keys → P k
  All-has_key k [] e h = ground arith
  All-has_key (v, id) ((w, j) ∷ js) e h = elim (Bool-cases (same_key (w, j) (v, id))) [
    | inl y ↦ let a : w ≡ v = ground arith in let b : j ≡ id = ground arith in rw (← a, ← b) h.0
    | inr n ↦ All-has_key (v, id) js (ground (arith, n, e)) h.1
  ]

pub Distinct-delete :
    (k : ℕ × ℕ) (keys : List (ℕ × ℕ)) → Distinct keys → Distinct (delete_key k keys)
Distinct-delete k [] h = tt
Distinct-delete k ((v, id) ∷ js) h = elim (Bool-cases (same_key (v, id) k)) [
  | inl y ↦ rw y h.1
  | inr n ↦ rw n (All-delete (λ j. j.1 == id ≡ false) k js h.0, Distinct-delete k js h.1)
]

pub Distinct-insert :
    (v id : ℕ) (keys : List (ℕ × ℕ))
    → AllOther id keys
    → Distinct keys
    → Distinct (insert_key (v, id) keys)
Distinct-insert v id [] o d = (tt, tt)
Distinct-insert v id ((w, j) ∷ js) o d =
    let e = o.0 in
    let n : same_key (w, j) (v, id) ≡ false = ground arith in
    let apart : id == j ≡ false = ground arith in
    elim (Bool-cases (before_key (v, id) (w, j))) [
      | inl y ↦ rw (n, y) (o, d)
      | inr m ↦
          rw (n, m)
            (
              All-insert (λ k. k.1 == j ≡ false) (v, id) js apart d.0,
              Distinct-insert v id js o.1 d.1,
            )
    ]

pub IsSorted-delete :
    (k : ℕ × ℕ) (keys : List (ℕ × ℕ)) → IsSorted keys → IsSorted (delete_key k keys)
IsSorted-delete k [] h = tt
IsSorted-delete k ((v, id) ∷ js) h = elim (Bool-cases (same_key (v, id) k)) [
  | inl y ↦ rw y h.1
  | inr n ↦ rw n (All-delete (λ j. v ≤ j.0) k js h.0, IsSorted-delete k js h.1)
]

pub IsSorted-insert :
    (k : ℕ × ℕ) (keys : List (ℕ × ℕ)) → IsSorted keys → IsSorted (insert_key k keys)
IsSorted-insert k [] h = (tt, tt)
IsSorted-insert (v, id) ((w, j) ∷ js) h = elim (Bool-cases (same_key (w, j) (v, id))) [
  | inl y ↦ let e : w ≡ v = ground arith in rw y (subst (λ z. AllFrom z js) e h.0, h.1)
  | inr n ↦ elim (Bool-cases (before_key (v, id) (w, j))) [
    | inl y ↦ let le : v ≤ w = ground arith in rw (n, y) ((le, AllFrom-le v w js le h.0), h)
    | inr m ↦
        let le : w ≤ v = ground arith in
        rw (n, m) (All-insert (λ k. w ≤ k.0) (v, id) js le h.0, IsSorted-insert (v, id) js h.1)
  ]
]

module _ (depth_of : ℕ → ℕ) (r limit : ℕ) where
  -- A key of an id that is not there adds what its batch takes up.
  pub used-insert :
      (v id : ℕ) (keys : List (ℕ × ℕ))
      → AllOther id keys
      → used depth_of r limit (insert_key (v, id) keys)
        ≡ room r limit v (depth_of id) + used depth_of r limit keys
  used-insert v id [] h = refl
  used-insert v id ((w, j) ∷ js) h =
      let n : same_key (w, j) (v, id) ≡ false = let e = h.0 in ground arith in
      elim (Bool-cases (before_key (v, id) (w, j))) [
        | inl y ↦ rw (n, y) refl
        | inr m ↦ let rest = used-insert v id js h.1 in rw (n, m) (omega arith)
      ]

  has_key-other : (v id : ℕ) (keys : List (ℕ × ℕ)) → AllOther id keys → has_key (v, id) keys ≡ false
  has_key-other v id [] h = refl
  has_key-other v id ((w, j) ∷ js) h = let e = h.0 in ground (arith, has_key-other v id js h.1)

  -- A key that is there gives back what its batch takes up, and no other key has its id.
  pub used-delete :
      (v id : ℕ) (keys : List (ℕ × ℕ))
      → has_key (v, id) keys ≡ true
      → Distinct keys
      → (used depth_of r limit keys
          ≡ room r limit v (depth_of id) + used depth_of r limit (delete_key (v, id) keys))
        × AllOther id (delete_key (v, id) keys)
  used-delete v id [] h d = ground arith
  used-delete v id ((w, j) ∷ js) h d = elim (Bool-cases (same_key (w, j) (v, id))) [
    | inl y ↦
        let e : w ≡ v = ground arith in
        let f : j ≡ id = ground arith in rw (y, e, f) (refl, subst (λ z. AllOther z js) f d.0)
    | inr n ↦
        let there : has_key (v, id) js ≡ true = ground (arith, n, h) in
        let (rest, other) = used-delete v id js there d.1 in
        let apart : j == id ≡ false = elim (Bool-cases (j == id)) [
          | inl y ↦
              let f : j ≡ id = ground arith in
              absurd (let g = has_key-other v id js (subst (λ z. AllOther z js) f d.0) in cc)
          | inr m ↦ m
        ] in
        rw n (omega arith, (apart, other))
  ]

  -- The depths count only at the ids of the keys.
  pub used-depths :
      (other_depth : ℕ → ℕ) (keys : List (ℕ × ℕ))
      → All (λ k. depth_of k.1 ≡ other_depth k.1) keys
      → used depth_of r limit keys ≡ used other_depth r limit keys
  used-depths other_depth [] h = refl
  used-depths other_depth ((v, id) ∷ keys) h = rw (h.0, used-depths other_depth keys h.1) refl

pub delete-other :
    (v id : ℕ) (keys : List (ℕ × ℕ)) → AllOther id keys → delete_key (v, id) keys ≡ keys
delete-other v id [] h = refl
delete-other v id ((w, j) ∷ js) h =
    let e = h.0 in
    let n : same_key (w, j) (v, id) ≡ false = ground arith in
    rw n (ap (λ l. (w, j) ∷ l) (delete-other v id js h.1))
