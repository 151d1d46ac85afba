-- ===== src/StampIssuer/Buckets.antt =====
-- The counts of the buckets of an issuer (pkg/postage/stampissuer.go).
use sana.Common.{
  ℕ, zero, suc, ◌≤◌, ◌<◌, ◌≡◌, ◌≢◌, refl, ap, some, List, [], ◌∷◌, ltb, if◌then◌else◌, length,
  get_elem?, get_or, set, arith,
}
use sana.StampIssuer.Index.{u32_mod}
use sana.StampIssuer.State.{StampIssuer, bucket_size}

abbrev pub greatest : List ℕ → ℕ
greatest [] = 0
greatest (x ∷ xs) = if ltb x (greatest xs) then greatest xs else x

-- Utilization is the count of the fullest bucket, no bucket has more than fits, and each index of a
-- bucket is a uint32.
pub record IsSound (si : StampIssuer) : Type 0 where
  pub fullest : si.max_bucket_count ≡ greatest si.buckets
  pub fits : greatest si.buckets ≤ bucket_size si
  pub numbered : length si.buckets ≤ u32_mod

pub greatest-get_or : (xs : List ℕ) (i : ℕ) → get_or xs i 0 ≤ greatest xs
greatest-get_or [] i = omega arith
greatest-get_or (x ∷ xs) zero = ground arith
greatest-get_or (x ∷ xs) (suc i) = let h = greatest-get_or xs i in ground arith

pub greatest-set :
    (xs : List ℕ) (i v : ℕ)
    → i < length xs
    → get_or xs i 0 ≤ v
    → greatest (set xs i v) ≡ (if ltb (greatest xs) v then v else greatest xs)
greatest-set [] i v h k = absurd (omega arith)
greatest-set (x ∷ xs) zero v h k = ground arith
greatest-set (x ∷ xs) (suc i) v h k = let rest = greatest-set xs i v (omega arith) k in ground arith

pub get_or-set : (xs : List ℕ) (i v : ℕ) → i < length xs → get_or (set xs i v) i 0 ≡ v
get_or-set [] i v h = absurd (omega arith)
get_or-set (x ∷ xs) zero v h = refl
get_or-set (x ∷ xs) (suc i) v h = get_or-set xs i v (omega arith)

pub get_or-set_other : (xs : List ℕ) (i j v : ℕ) → i ≢ j → get_or (set xs i v) j 0 ≡ get_or xs j 0
get_or-set_other [] i j v h = refl
get_or-set_other (x ∷ xs) zero zero v h = absurd (h refl)
get_or-set_other (x ∷ xs) zero (suc j) v h = refl
get_or-set_other (x ∷ xs) (suc i) zero v h = refl
get_or-set_other (x ∷ xs) (suc i) (suc j) v h = get_or-set_other xs i j v (λ e. h (ap suc e))

pub get_elem?_lem :
    (xs : List ℕ) (i c : ℕ) → get_elem? xs i ≡ some c → (i < length xs) × (get_or xs i 0 ≡ c)
get_elem?_lem [] i c h = ground arith
get_elem?_lem (x ∷ xs) zero c h = ground arith
get_elem?_lem (x ∷ xs) (suc i) c h = let (a, b) = get_elem?_lem xs i c h in (omega arith, b)
