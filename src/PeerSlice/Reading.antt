-- ===== src/PeerSlice/Reading.antt =====
-- What BinPeers, ShallowestEmpty and EachBin read in the bins (pkg/topology/pslice/pslice.go), and
-- the range of the proximity (pkg/swarm/proximity.go).
use sana.Common.{
  ℕ, zero, ◌%◌, suc, ◌+◌, ◌-◌, ◌≤◌, ◌<◌, ◌≡◌, refl, ap, sym, ◌∙◌, false, Option, none, some, [],
  ◌∷◌, ◌++◌, leb, ◌==◌, length, length-append, get_or, take, drop, if◌then◌else◌, arith, Bool-cases,
  inl, inr,
}
use mathlib.Core.List.{append-nil}
use sana.Common.Word.{u8_mod}
use sana.PeerSlice.State.{PSlice, bin_peers, empty_from, shallowest_empty}
use sana.PeerSlice.Bins.{
  Bins, concat, offsets, start_of, Represents, length-offsets, get_or-offsets, take-add_append,
  drop-add_append,
}

pub drop-start_of :
    (p : ℕ) (ls : Bins)
    → p < length ls
    → take (length (get_or ls p [])) (drop (start_of ls p) (concat ls)) ≡ get_or ls p []
drop-start_of p [] h = absurd (omega arith)
drop-start_of zero (l ∷ ls) h =
    let e : length l ≡ length l + 0 = omega arith in
    ap (λ n. take n (l ++ concat ls)) e ∙ take-add_append l (concat ls) 0 ∙ append-nil l
drop-start_of (suc p) (l ∷ ls) h =
    rw (drop-add_append l (concat ls) (start_of ls p)) (drop-start_of p ls (omega arith))

pub start_of-suc :
    (p : ℕ) (ls : Bins)
    → p < length ls
    → start_of ls (suc p) ≡ start_of ls p + length (get_or ls p [])
start_of-suc p [] h = absurd (omega arith)
start_of-suc zero (l ∷ []) h = omega arith
start_of-suc zero (l ∷ m ∷ ls) h = omega arith
start_of-suc (suc p) (l ∷ ls) h = let e = start_of-suc p ls (omega arith) in omega arith

start_of-last :
    (p : ℕ) (ls : Bins)
    → suc p ≡ length ls
    → length (concat ls) ≡ start_of ls p + length (get_or ls p [])
start_of-last p [] h = absurd (omega arith)
start_of-last zero (l ∷ []) h = let e = length-append l [] in omega arith
start_of-last zero (l ∷ m ∷ ls) h = absurd (omega arith)
start_of-last (suc p) (l ∷ ls) h =
    let e = start_of-last p ls (omega arith) in let s = length-append l (concat ls) in omega arith

get_or-beyond : (p : ℕ) (ls : Bins) → length ls ≤ p → get_or ls p [] ≡ []
get_or-beyond p [] h = refl
get_or-beyond zero (l ∷ ls) h = absurd (omega arith)
get_or-beyond (suc p) (l ∷ ls) h = get_or-beyond p ls (omega arith)

-- The end of bin `p`: the number of the peers, or where the next bin starts.
abbrev pub end_of : ℕ → Bins → ℕ
end_of p ls = if p == length ls - 1 then length (concat ls) else get_or (offsets 0 ls) (p + 1) 0

pub end_of_lem :
    (p : ℕ) (ls : Bins) → p < length ls → end_of p ls ≡ start_of ls p + length (get_or ls p [])
end_of_lem p ls h = elim (Bool-cases (p == length ls - 1)) [
  | inl e ↦ rw e (start_of-last p ls (ground arith))
  | inr n ↦
      let next : p + 1 ≡ suc p = omega arith in
      let inside : suc p < length ls = ground arith in
      rw (n, next) (get_or-offsets 0 (suc p) 0 ls inside ∙ omega (arith, start_of-suc p ls h))
]

-- BinPeers gives the peers of the bin, and nothing for a bin that is not there.
pub bin_peers-Represents :
    (s : PSlice) (ls : Bins) (bin : ℕ) → Represents s ls → bin_peers bin s ≡ get_or ls bin []
unfolding bin_peers
bin_peers-Represents s ls bin r = elim (Bool-cases (leb (length ls) bin)) [
  | inl e ↦ rw (r.bins_of, length-offsets 0 ls, e) (sym (get_or-beyond bin ls (ground arith)))
  | inr n ↦
      let inside : bin < length ls = ground arith in
      let start : get_or (offsets 0 ls) bin 0 ≡ start_of ls bin =
        get_or-offsets 0 bin 0 ls inside ∙ omega arith in
      let width : start_of ls bin + length (get_or ls bin []) - start_of ls bin
          ≡ length (get_or ls bin []) =
        omega arith in
      rw (r.bins_of, r.peers_of, length-offsets 0 ls, n, end_of_lem bin ls inside, start, width)
        (drop-start_of bin ls inside)
]

-- The index of the first empty bin, counted from `k` on.
abbrev pub first_empty : ℕ → Bins → Option ℕ
first_empty k [] = none
first_empty k ([] ∷ ls) = some k
first_empty k ((a ∷ l) ∷ ls) = first_empty (k + 1) ls

empty_from-offsets :
    (k n total : ℕ) (ls : Bins)
    → total ≡ n + length (concat ls)
    → empty_from (length ls) k (offsets n ls) total ≡ first_empty k ls
unfolding empty_from
empty_from-offsets k n total [] e = refl
empty_from-offsets k n total ([] ∷ []) e = ground arith
empty_from-offsets k n total ((a ∷ l) ∷ []) e = let s = length-append (a ∷ l) [] in ground arith
empty_from-offsets k n total ([] ∷ m ∷ ls) e = ground arith
empty_from-offsets k n total ((a ∷ l) ∷ m ∷ ls) e =
    let s = length-append (a ∷ l) (concat (m ∷ ls)) in
    let differs : (n + suc (length l) == n) ≡ false = ground arith in
    rw differs (empty_from-offsets (k + 1) (n + suc (length l)) total (m ∷ ls) (omega arith))

-- ShallowestEmpty gives the first of at most 255 bins without a peer, and none when each bin has
-- one.
pub shallowest_empty-Represents :
    (s : PSlice) (ls : Bins)
    → Represents s ls
    → length ls < u8_mod
    → shallowest_empty s ≡ first_empty 0 ls
unfolding shallowest_empty
shallowest_empty-Represents s ls r few =
    let n : length ls % u8_mod ≡ length ls = omega arith in
    rw (r.bins_of, r.peers_of, length-offsets 0 ls, n)
      (empty_from-offsets 0 0 (length (concat ls)) ls (omega arith))
