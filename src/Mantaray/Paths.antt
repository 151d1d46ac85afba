-- ===== src/Mantaray/Paths.antt =====
-- Byte strings and their prefixes (common in pkg/manifest/mantaray/node.go).
use sana.Common.{
  ℕ, zero, suc, ◌≡◌, refl, ap, Bool, true, false, Option, none, some, List, [], ◌∷◌, ◌++◌, ◌==◌,
  if◌then◌else◌, length, take, drop, arith, Bool-cases, inl, inr,
}

abbrev pub Bytes : Type 0
Bytes = List ℕ

abbrev pub common : Bytes → Bytes → Bytes
common [] bs = []
common (a ∷ as1) [] = []
common (a ∷ as1) (b ∷ bs) = let rest = common as1 bs in if a == b then a ∷ rest else []

-- What is left of a path behind a prefix.
abbrev pub strip : Bytes → Bytes → Option Bytes
strip [] q = some q
strip (p ∷ ps) [] = none
strip (p ∷ ps) (q ∷ qs) = let rest = strip ps qs in if p == q then rest else none

abbrev pub fits : Bytes → Bytes → Bool
fits p q = length (common p q) == length p

pub eq→≡ : (a b : ℕ) → a == b ≡ true → a ≡ b
eq→≡ a b h = ground arith

pub eq_refl : (a : ℕ) → a == a ≡ true
eq_refl a = ground arith

pub eq_sym : (a b : ℕ) → a == b ≡ false → b == a ≡ false
eq_sym a b h = ground arith

suc_eq : (a b : ℕ) → suc a == suc b ≡ a == b
suc_eq a b = ground arith

fits_tail : (a b : ℕ) (p q : Bytes) → a == b ≡ true → fits (a ∷ p) (b ∷ q) ≡ true → fits p q ≡ true
fits_tail a b p q e h = ground arith

misfits_tail :
    (a b : ℕ) (p q : Bytes) → a == b ≡ true → fits (a ∷ p) (b ∷ q) ≡ false → fits p q ≡ false
misfits_tail a b p q e h = ground arith

misfit : (a b : ℕ) (p q : Bytes) → a == b ≡ false → fits (a ∷ p) (b ∷ q) ≡ true → ⊥
misfit a b p q e h = ground arith

pub strip-fits : (p q : Bytes) → fits p q ≡ true → strip p q ≡ some (drop (length (common p q)) q)
strip-fits [] q h = refl
strip-fits (a ∷ p) [] h = ground arith
strip-fits (a ∷ p) (b ∷ q) h = elim (Bool-cases (a == b)) [
  | inl e ↦ rw e (strip-fits p q (fits_tail a b p q e h))
  | inr n ↦ elim (misfit a b p q n h) [ ]
]

pub strip-misfits : (p q : Bytes) → fits p q ≡ false → strip p q ≡ none
strip-misfits [] q h = ground arith
strip-misfits (a ∷ p) [] h = refl
strip-misfits (a ∷ p) (b ∷ q) h = elim (Bool-cases (a == b)) [
  | inl e ↦ rw e (strip-misfits p q (misfits_tail a b p q e h))
  | inr n ↦ rw n refl
]

-- A prefix and what is left make the path.
pub strip-append : (p q : Bytes) → strip p (p ++ q) ≡ some q
strip-append [] q = refl
strip-append (a ∷ p) q = rw (eq_refl a) (strip-append p q)

pub append-strip : (p q r : Bytes) → strip p q ≡ some r → q ≡ p ++ r
append-strip [] q r h = ground arith
append-strip (a ∷ p) [] r h = ground arith
append-strip (a ∷ p) (b ∷ q) r h = elim (Bool-cases (a == b)) [
  | inl e ↦
      let x = eq→≡ a b e in
      let g : strip p q ≡ some r = ground arith in rw x (ap (λ s. b ∷ s) (append-strip p q r g))
  | inr n ↦ ground arith
]

-- Two prefixes one after the other.
abbrev pub and_strip : Bytes → Option Bytes → Option Bytes
and_strip p none = none
and_strip p (some q) = strip p q

pub strip_twice : (p r q : Bytes) → strip (p ++ r) q ≡ and_strip r (strip p q)
strip_twice [] r q = refl
strip_twice (a ∷ p) r [] = refl
strip_twice (a ∷ p) r (b ∷ q) = elim (Bool-cases (a == b)) [
  | inl e ↦ rw e (strip_twice p r q)
  | inr n ↦ rw n refl
]

pub common-drop : (p q : Bytes) → common p q ++ drop (length (common p q)) p ≡ p
common-drop [] q = refl
common-drop (a ∷ p) [] = refl
common-drop (a ∷ p) (b ∷ q) = elim (Bool-cases (a == b)) [
  | inl e ↦ rw e (ap (λ s. a ∷ s) (common-drop p q))
  | inr n ↦ rw n refl
]

pub common-drop_path : (p q : Bytes) → common p q ++ drop (length (common p q)) q ≡ q
common-drop_path [] q = refl
common-drop_path (a ∷ p) [] = refl
common-drop_path (a ∷ p) (b ∷ q) = elim (Bool-cases (a == b)) [
  | inl e ↦ rw e (let x = eq→≡ a b e in rw x (ap (λ s. b ∷ s) (common-drop_path p q)))
  | inr n ↦ rw n refl
]

pub take-drop : (n : ℕ) (q : Bytes) → take n q ++ drop n q ≡ q
take-drop zero q = refl
take-drop (suc n) [] = refl
take-drop (suc n) (b ∷ q) = ap (λ s. b ∷ s) (take-drop n q)
