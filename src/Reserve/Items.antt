-- ===== src/Reserve/Items.antt =====
-- `UnreserveItem` and its encoding (pkg/postage/batchstore/reserve.go).
use sana.Common.{
  ℕ, suc, ◌+◌, ◌≡◌, refl, ap, ◌∙◌, Option, none, some, List, [], ◌∷◌, ◌==◌, if◌then◌else◌, length,
  length-set, get_or, set, take, replicate, arith, subst,
}

pub record UnreserveItem : Type 0 where
  pub batch_id : List ℕ
  pub radius : ℕ

-- Go's copy into the front of a list: as many bytes as both have.
abbrev pub copy : List ℕ → List ℕ → List ℕ
copy [] ys = []
copy (x ∷ xs) [] = x ∷ xs
copy (x ∷ xs) (y ∷ ys) = y ∷ copy xs ys

unfoldable pub marshal : UnreserveItem → List ℕ
marshal u = set (copy (replicate 33 0) u.batch_id) 32 u.radius

-- `none` for the error of UnmarshalBinary
unfoldable pub unmarshal : List ℕ → Option UnreserveItem
unmarshal b =
    if length b == 33
    then some (record { batch_id = copy (replicate 32 0) (take 32 b); radius = get_or b 32 0 })
    else none

length-copy : (xs ys : List ℕ) → length (copy xs ys) ≡ length xs
length-copy [] ys = refl
length-copy (x ∷ xs) [] = refl
length-copy (x ∷ xs) (y ∷ ys) = ap suc (length-copy xs ys)

-- The bytes before the radius, cut off again, are the batch id.
take-set-copy :
    (xs ys : List ℕ) (r : ℕ)
    → length xs ≡ length ys + 1
    → take (length ys) (set (copy xs ys) (length ys) r) ≡ ys
take-set-copy [] ys r h = absurd (omega arith)
take-set-copy (x ∷ xs) [] r h = refl
take-set-copy (x ∷ xs) (y ∷ ys) r h = ap (λ l. y ∷ l) (take-set-copy xs ys r (omega arith))

get-set-copy :
    (xs ys : List ℕ) (r : ℕ)
    → length xs ≡ length ys + 1
    → get_or (set (copy xs ys) (length ys) r) (length ys) 0 ≡ r
get-set-copy [] ys r h = absurd (omega arith)
get-set-copy (x ∷ xs) [] r h = refl
get-set-copy (x ∷ xs) (y ∷ ys) r h = get-set-copy xs ys r (omega arith)

copy_self : (xs ys : List ℕ) → length xs ≡ length ys → copy xs ys ≡ ys
copy_self [] [] h = refl
copy_self [] (y ∷ ys) h = absurd (omega arith)
copy_self (x ∷ xs) [] h = absurd (omega arith)
copy_self (x ∷ xs) (y ∷ ys) h = ap (λ l. y ∷ l) (copy_self xs ys (omega arith))

length-marshal : (u : UnreserveItem) → length (marshal u) ≡ 33
unfolding marshal
length-marshal u =
    length-set (copy (replicate 33 0) u.batch_id) 32 u.radius
    ∙ length-copy (replicate 33 0) u.batch_id

-- An item with a batch id of 32 bytes is decoded as it was encoded, and an encoding of any item has
-- the length that decoding asks for.
pub unmarshal-marshal :
    (u : UnreserveItem)
    → length u.batch_id ≡ 32
    → (unmarshal (marshal u) ≡ some u) × (length (marshal u) ≡ 33)
unfolding marshal unmarshal
unmarshal-marshal u h =
    let long = replicate 33 0 in
    let e : take 32 (set (copy long u.batch_id) 32 u.radius) ≡ u.batch_id =
      subst (λ n. take n (set (copy long u.batch_id) n u.radius) ≡ u.batch_id) h
        (take-set-copy long u.batch_id u.radius (omega arith)) in
    let r : get_or (set (copy long u.batch_id) 32 u.radius) 32 0 ≡ u.radius =
      subst (λ n. get_or (set (copy long u.batch_id) n u.radius) n 0 ≡ u.radius) h
        (get-set-copy long u.batch_id u.radius (omega arith)) in
    (
      rw (length-marshal u, e, r, copy_self (replicate 32 0) u.batch_id (omega arith)) refl,
      length-marshal u,
    )
