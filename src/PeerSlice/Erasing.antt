-- ===== src/PeerSlice/Erasing.antt =====
-- Taking an address out of the bins (pkg/topology/pslice/pslice.go).
use mathlib.Core.Option
use sana.Common.{
  ℕ, zero, suc, ◌+◌, ◌≤◌, ◌≡◌, refl, ap, sym, ◌∙◌, Bool, true, false, ◌||◌, Option, none, some,
  List, [], ◌∷◌, ◌++◌, length, take, drop, arith, Bool-cases, inl, inr,
}
use sana.PeerSlice.Distance.{Address, equal, equal→≡}
use sana.PeerSlice.State.{find}
use sana.PeerSlice.Bins.{Bins, concat, erase, erase_at, AllAt, Placed}

abbrev pub found : Address → List Address → Bool
found addr [] = false
found addr (a ∷ rest) = equal a addr || found addr rest

-- The list without the element at the index that `find` gives.
abbrev pub without : List Address → Option ℕ → List Address
without xs none = xs
without xs (some i) = take i xs ++ drop (i + 1) xs

without-suc :
    (a : Address) (xs : List Address) (o : Option ℕ)
    → without (a ∷ xs) (Option.map suc o) ≡ a ∷ without xs o
without-suc a xs none = refl
without-suc a xs (some i) = ground arith

pub without-find : (addr : Address) (xs : List Address) → without xs (find addr xs) ≡ erase addr xs
unfolding find
without-find addr [] = refl
without-find addr (a ∷ rest) = elim (Bool-cases (equal a addr)) [
  | inl e ↦ rw e refl
  | inr n ↦ rw (n, without-suc a rest (find addr rest), without-find addr rest) refl
]

pub AllAt-found :
    (f : Address → ℕ) (k : ℕ) (addr : Address) (l : List Address)
    → AllAt f k l
    → found addr l ≡ true
    → f addr ≡ k
AllAt-found f k addr [] h e = ground arith
AllAt-found f k addr (a ∷ rest) h e = elim (Bool-cases (equal a addr)) [
  | inl at ↦ ap f (sym (equal→≡ a addr at)) ∙ h.0
  | inr n ↦ AllAt-found f k addr rest h.1 (ground (arith, n, e))
]

pub found-append :
    (addr : Address) (xs ys : List Address)
    → found addr (xs ++ ys) ≡ (found addr xs || found addr ys)
found-append addr [] ys = refl
found-append addr (x ∷ xs) ys = ground (arith, found-append addr xs ys)

pub Placed-found :
    (f : Address → ℕ) (k : ℕ) (addr : Address) (ls : Bins)
    → Placed f k ls
    → found addr (concat ls) ≡ true
    → k ≤ f addr
Placed-found f k addr [] h e = ground arith
Placed-found f k addr (l ∷ ls) h e = elim (Bool-cases (found addr l)) [
  | inl at ↦ let g = AllAt-found f k addr l h.0 at in omega arith
  | inr n ↦
      let g =
        Placed-found f (k + 1) addr ls h.1
          (ground (arith, n, e, found-append addr l (concat ls))) in
      omega arith
]

pub erase-append_found :
    (addr : Address) (xs ys : List Address)
    → found addr xs ≡ true
    → erase addr (xs ++ ys) ≡ erase addr xs ++ ys
erase-append_found addr [] ys h = ground arith
erase-append_found addr (x ∷ xs) ys h = ground (arith, erase-append_found addr xs ys)

pub erase-append_not_found :
    (addr : Address) (xs ys : List Address)
    → found addr xs ≡ false
    → erase addr (xs ++ ys) ≡ xs ++ erase addr ys
erase-append_not_found addr [] ys h = refl
erase-append_not_found addr (x ∷ xs) ys h = ground (arith, erase-append_not_found addr xs ys)

pub length-erase :
    (addr : Address) (xs : List Address)
    → found addr xs ≡ true
    → length (erase addr xs) + 1 ≡ length xs
length-erase addr [] h = ground arith
length-erase addr (x ∷ xs) h = ground (arith, length-erase addr xs)

erase-AllAt :
    (f : Address → ℕ) (k : ℕ) (addr : Address) (l : List Address)
    → AllAt f k l
    → AllAt f k (erase addr l)
erase-AllAt f k addr [] h = tt
erase-AllAt f k addr (a ∷ rest) h = elim (Bool-cases (equal a addr)) [
  | inl e ↦ rw e h.1
  | inr n ↦ rw n (h.0, erase-AllAt f k addr rest h.1)
]

pub erase_at-Placed :
    (f : Address → ℕ) (k p : ℕ) (addr : Address) (ls : Bins)
    → Placed f k ls
    → Placed f k (erase_at p addr ls)
erase_at-Placed f k p addr [] h = tt
erase_at-Placed f k zero addr (l ∷ ls) h = (erase-AllAt f k addr l h.0, h.1)
erase_at-Placed f k (suc p) addr (l ∷ ls) h = (h.0, erase_at-Placed f (k + 1) p addr ls h.1)
