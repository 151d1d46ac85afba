-- ===== src/PeerSlice/Bins.antt =====
-- The bins as a list of lists, which PSlice lays out in one list with an index for each bin
-- (pkg/topology/pslice/pslice.go).
use sana.Common.{
  ℕ, zero, suc, ◌+◌, ◌<◌, ◌≡◌, refl, ap, ◌∙◌, some, List, [], ◌∷◌, ◌++◌, length, get_elem?, get_or,
  take, drop, if◌then◌else◌, arith,
}
use sana.PeerSlice.Distance.{Address, equal}
use sana.PeerSlice.State.{PSlice, po_in}

abbrev pub Bins : Type 0
Bins = List (List Address)

abbrev pub concat : Bins → List Address
concat [] = []
concat (l ∷ ls) = l ++ concat ls

-- The index of the first peer of each bin, when `n` peers come before.
abbrev pub offsets : ℕ → Bins → List ℕ
offsets n [] = []
offsets n (l ∷ ls) = n ∷ offsets (n + length l) ls

-- The number of peers in the bins before bin `p`.
abbrev pub start_of : Bins → ℕ → ℕ
start_of [] p = 0
start_of (l ∷ ls) zero = 0
start_of (l ∷ ls) (suc p) = length l + start_of ls p

-- `addr` becomes the first peer of bin `p`.
abbrev pub cons_at : ℕ → Address → Bins → Bins
cons_at p addr [] = []
cons_at zero addr (l ∷ ls) = (addr ∷ l) ∷ ls
cons_at (suc p) addr (l ∷ ls) = l ∷ cons_at p addr ls

abbrev pub erase : Address → List Address → List Address
erase addr [] = []
erase addr (a ∷ rest) = if equal a addr then rest else a ∷ erase addr rest

-- `addr` leaves bin `p`.
abbrev pub erase_at : ℕ → Address → Bins → Bins
erase_at p addr [] = []
erase_at zero addr (l ∷ ls) = erase addr l ∷ ls
erase_at (suc p) addr (l ∷ ls) = l ∷ erase_at p addr ls

-- All the peers of a list have this proximity.
abbrev pub AllAt : (Address → ℕ) → ℕ → List Address → Type 0
AllAt f k [] = Unit {0}
AllAt f k (a ∷ rest) = (f a ≡ k) × AllAt f k rest

-- Each peer is in the bin of its proximity; `k` is the first bin.
abbrev pub Placed : (Address → ℕ) → ℕ → Bins → Type 0
Placed f k [] = Unit {0}
Placed f k (l ∷ ls) = AllAt f k l × Placed f (k + 1) ls

-- The slice is the layout of these bins, with each peer in its bin.
pub record Represents (s : PSlice) (ls : Bins) : Type 0 where
  pub peers_of : s.peers ≡ concat ls
  pub bins_of : s.bins ≡ offsets 0 ls
  pub placed : Placed (po_in (length ls) s.base_bytes) 0 ls

pub length-offsets : (n : ℕ) (ls : Bins) → length (offsets n ls) ≡ length ls
length-offsets n [] = refl
length-offsets n (l ∷ ls) = ap suc (length-offsets (n + length l) ls)

pub length-cons_at : (p : ℕ) (addr : Address) (ls : Bins) → length (cons_at p addr ls) ≡ length ls
length-cons_at p addr [] = refl
length-cons_at zero addr (l ∷ ls) = refl
length-cons_at (suc p) addr (l ∷ ls) = ap suc (length-cons_at p addr ls)

pub length-erase_at : (p : ℕ) (addr : Address) (ls : Bins) → length (erase_at p addr ls) ≡ length ls
length-erase_at p addr [] = refl
length-erase_at zero addr (l ∷ ls) = refl
length-erase_at (suc p) addr (l ∷ ls) = ap suc (length-erase_at p addr ls)

pub get-offsets :
    (n p : ℕ) (ls : Bins) → p < length ls → get_elem? (offsets n ls) p ≡ some (n + start_of ls p)
get-offsets n p [] h = absurd (omega arith)
get-offsets n zero (l ∷ ls) h = ap some (omega arith)
get-offsets n (suc p) (l ∷ ls) h =
    get-offsets (n + length l) p ls (omega arith) ∙ ap some (omega arith)

pub get_or-offsets :
    (n p d : ℕ) (ls : Bins) → p < length ls → get_or (offsets n ls) p d ≡ n + start_of ls p
get_or-offsets n p d [] h = absurd (omega arith)
get_or-offsets n zero d (l ∷ ls) h = omega arith
get_or-offsets n (suc p) d (l ∷ ls) h =
    get_or-offsets (n + length l) p d ls (omega arith) ∙ omega arith

module _ {A : Type 0} where
  pub take-add_append : (xs ys : List A) (n : ℕ) → take (length xs + n) (xs ++ ys) ≡ xs ++ take n ys
  take-add_append [] ys n = let e : 0 + n ≡ n = omega arith in rw e refl
  take-add_append (x ∷ xs) ys n =
      let e : suc (length xs) + n ≡ suc (length xs + n) = omega arith in
      rw e (ap (λ l. x ∷ l) (take-add_append xs ys n))

  pub drop-add_append : (xs ys : List A) (n : ℕ) → drop (length xs + n) (xs ++ ys) ≡ drop n ys
  drop-add_append [] ys n = let e : 0 + n ≡ n = omega arith in rw e refl
  drop-add_append (x ∷ xs) ys n =
      let e : suc (length xs) + n ≡ suc (length xs + n) = omega arith in
      rw e (drop-add_append xs ys n)
