-- ===== src/PeerSlice/Visiting.antt =====
-- The order in which EachBin visits the peers (pkg/topology/pslice/pslice.go).
use sana.Common.{
  ℕ, zero, suc, ◌+◌, ◌%◌, ◌-◌, ◌≤◌, ◌<◌, ◌≡◌, refl, ap, sym, subst, ◌∙◌, List, [], ◌∷◌, length,
  length-append, get_or, arith, ◌==◌, Bool-cases, inl, inr,
}
use sana.Common.Word.{u8_mod}
use sana.PeerSlice.Distance.{Address}
use sana.PeerSlice.State.{
  PSlice, slice, Answer, go_on, next, stop, fail, visit, and_then, each_from, each_bin,
}
use sana.PeerSlice.Bins.{
  Bins, concat, offsets, start_of, Represents, length-offsets, get_or-offsets,
}
use sana.PeerSlice.Steps.{after_first, visit_first}
use sana.PeerSlice.Reading.{drop-start_of, start_of-suc}

start_of-length : (ls : Bins) → start_of ls (length ls) ≡ length (concat ls)
start_of-length [] = refl
start_of-length (l ∷ ls) =
    let e = start_of-length ls in let s = length-append l (concat ls) in omega arith

module _ {S : Type 0} (pf : Address → ℕ → S → Answer × S) where
  -- The bins from `i` - 1 down to 0, each with its peers in order; a bin ends early, or all do, by
  -- the answers. The function has the bin as a uint8.
  abbrev pub visit_down : Bins → ℕ → S → Answer × S
  visit_down ls zero s = (go_on, s)
  visit_down ls (suc i) s = and_then pf (visit pf (i % u8_mod) (get_or ls i []) s) (visit_down ls i)

pub slice-offsets :
    (i : ℕ) (ls : Bins)
    → i < length ls
    → slice (start_of ls i) (start_of ls (suc i)) (concat ls) ≡ get_or ls i []
slice-offsets i ls h =
    let width : start_of ls i + length (get_or ls i []) - start_of ls i ≡ length (get_or ls i []) =
      omega arith in
    rw (start_of-suc i ls h, width) (drop-start_of i ls h)

each_from-offsets :
    {S : Type 0}
    → (pf : Address → ℕ → S → Answer × S) (ls : Bins) (i : ℕ) (s : S) → i ≤ length ls
    → each_from pf i (concat ls) (offsets 0 ls) (start_of ls i) s ≡ visit_down pf ls i s
each_from-offsets pf ls zero s h = refl
each_from-offsets pf ls (suc i) s h =
    let start : get_or (offsets 0 ls) i 0 ≡ start_of ls i =
      get_or-offsets 0 i 0 ls (omega arith) ∙ omega arith in
    rw (start, slice-offsets i ls (omega arith))
      (ap (and_then pf (visit pf (i % u8_mod) (get_or ls i []) s))
        (λ j t. each_from-offsets pf ls i t (omega arith) j))

pub no_peers : (i : ℕ) (ls : Bins) → length (concat ls) ≡ 0 → get_or ls i [] ≡ []
no_peers i [] h = refl
no_peers zero ([] ∷ ls) h = refl
no_peers zero ((a ∷ l) ∷ ls) h = absurd (omega arith)
no_peers (suc i) (l ∷ ls) h = let s = length-append l (concat ls) in no_peers i ls (omega arith)

visit_down-empty :
    {S : Type 0}
    → (pf : Address → ℕ → S → Answer × S) (ls : Bins) (i : ℕ) (s : S) → length (concat ls) ≡ 0
    → visit_down pf ls i s ≡ (go_on, s)
visit_down-empty pf ls zero s h = refl
visit_down-empty pf ls (suc i) s h = rw (no_peers i ls h) (visit_down-empty pf ls i s h)

-- EachBin reads the bins of the list.
each_bin-visit_down :
    {S : Type 0}
    → (pf : Address → ℕ → S → Answer × S) (p : PSlice) (ls : Bins) (s : S) → Represents p ls
    → each_bin pf p s ≡ visit_down pf ls (length ls) s
each_bin-visit_down pf p ls s r = elim (Bool-cases (length (concat ls) == 0)) [
  | inl e ↦ rw (r.peers_of, e) (sym (visit_down-empty pf ls (length ls) s (ground arith)))
  | inr n ↦
      rw (r.bins_of, r.peers_of, n, length-offsets 0 ls, sym (start_of-length ls))
        (each_from-offsets pf ls (length ls) s (omega arith))
]

-- The bins from `i` - 1 down to 0, each with the number that the function is given.
abbrev pub bins_down : ℕ → Bins → List (ℕ × List Address)
bins_down zero ls = []
bins_down (suc i) ls = (i % u8_mod, get_or ls i []) ∷ bins_down i ls

-- A run of the function over the peers of bins, and its end, by the answers: `go_on` leads to the next peer
-- of the bin, `next` to the next bin, and after `stop` and `fail`, an error, no peer is visited.
pub data Visits {S : Type 0} (pf : Address → ℕ → S → Answer × S)
    : List (ℕ × List Address) → S → Answer → S → Type 0 where
  no_bins : (s : S) → Visits pf [] s go_on s
  bin_ends :
      (i : ℕ) (bins : List (ℕ × List Address)) (s t : S) (a : Answer)
      → Visits pf bins s a t
      → Visits pf ((i, []) ∷ bins) s a t
  goes_on :
      (i : ℕ) (x : Address) (l : List Address) (bins : List (ℕ × List Address)) (s t u : S)
      (a : Answer)
      → pf x i s ≡ (go_on, t)
      → Visits pf ((i, l) ∷ bins) t a u
      → Visits pf ((i, x ∷ l) ∷ bins) s a u
  to_next :
      (i : ℕ) (x : Address) (l : List Address) (bins : List (ℕ × List Address)) (s t u : S)
      (a : Answer)
      → pf x i s ≡ (next, t)
      → Visits pf bins t a u
      → Visits pf ((i, x ∷ l) ∷ bins) s a u
  stops :
      (i : ℕ) (x : Address) (l : List Address) (bins : List (ℕ × List Address)) (s t : S)
      → pf x i s ≡ (stop, t)
      → Visits pf ((i, x ∷ l) ∷ bins) s stop t
  fails :
      (i : ℕ) (x : Address) (l : List Address) (bins : List (ℕ × List Address)) (s t : S)
      → pf x i s ≡ (fail, t)
      → Visits pf ((i, x ∷ l) ∷ bins) s fail t

module _ {S : Type 0} (pf : Address → ℕ → S → Answer × S) where
  abbrev Ran : List (ℕ × List Address) → S → Answer × S → Type 0
  Ran bins s x = Visits pf bins s x.0 x.1

  module _ (i : ℕ) (bins : List (ℕ × List Address)) (k : S → Answer × S)
      (rest : (s : S) → Ran bins s (k s)) where
    first-Ran :
        (x : Address) (l : List Address) (s : S) (y : Answer × S)
        → pf x i s ≡ y
        → ((t : S) → Ran ((i, l) ∷ bins) t (and_then pf (visit pf i l t) k))
        → Ran ((i, x ∷ l) ∷ bins) s (and_then pf (after_first pf i l y) k)
    first-Ran x l s (go_on, t) e more =
        let r = and_then pf (visit pf i l t) k in goes_on i x l bins s t r.1 r.0 e (more t)
    first-Ran x l s (next, t) e more = to_next i x l bins s t (k t).1 (k t).0 e (rest t)
    first-Ran x l s (stop, t) e more = stops i x l bins s t e
    first-Ran x l s (fail, t) e more = fails i x l bins s t e

    visit-Ran : (l : List Address) (s : S) → Ran ((i, l) ∷ bins) s (and_then pf (visit pf i l s) k)
    visit-Ran [] s = bin_ends i bins s (k s).1 (k s).0 (rest s)
    visit-Ran (x ∷ l) s =
        subst (λ y. Ran ((i, x ∷ l) ∷ bins) s (and_then pf y k))
          (sym (visit_first pf i x l s (pf x i s) refl))
          (first-Ran x l s (pf x i s) refl (visit-Ran l))

  visit_down-Ran : (ls : Bins) (i : ℕ) (s : S) → Ran (bins_down i ls) s (visit_down pf ls i s)
  visit_down-Ran ls zero s = no_bins s
  visit_down-Ran ls (suc i) s =
      visit-Ran (i % u8_mod) (bins_down i ls) (visit_down pf ls i) (visit_down-Ran ls i)
        (get_or ls i []) s

-- EachBin visits the bins from the deepest to the shallowest, and in each the peers in their order: it
-- goes to the next peer or to the next bin as the function answers, ends at the first stop or error with
-- that answer, and without one when all bins are visited.
pub each_bin-Represents :
    {S : Type 0}
    → (pf : Address → ℕ → S → Answer × S) (p : PSlice) (ls : Bins) (s : S) → Represents p ls
    → Visits pf (bins_down (length ls) ls) s (each_bin pf p s).0 (each_bin pf p s).1
each_bin-Represents pf p ls s r =
    subst (Ran pf (bins_down (length ls) ls) s) (sym (each_bin-visit_down pf p ls s r))
      (visit_down-Ran pf ls (length ls) s)
