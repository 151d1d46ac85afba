-- ===== src/PeerSlice/Ascending.antt =====
-- The order in which EachBinRev visits the peers (pkg/topology/pslice/pslice.go).
use sana.Common.{
  ℕ, zero, suc, ◌+◌, ◌%◌, ◌≡◌, refl, ap, sym, ◌∙◌, [], length, get_or, arith, ◌==◌, Bool-cases, inl,
  inr,
}
use sana.Common.Word.{u8_mod}
use sana.PeerSlice.Distance.{Address}
use sana.PeerSlice.State.{PSlice, Answer, go_on, visit, and_then, each_up, each_bin_rev}
use sana.PeerSlice.Bins.{
  Bins, concat, offsets, start_of, Represents, length-offsets, get_or-offsets,
}
use sana.PeerSlice.Reading.{start_of-suc, end_of_lem}
use sana.PeerSlice.Visiting.{no_peers, slice-offsets}

module _ {S : Type 0} (pf : Address → ℕ → S → Answer × S) where
  -- So many bins from `i` on, each with its peers in order.
  abbrev pub visit_up : Bins → ℕ → ℕ → S → Answer × S
  visit_up ls zero i s = (go_on, s)
  visit_up ls (suc n) i s =
      and_then pf (visit pf (i % u8_mod) (get_or ls i []) s) (visit_up ls n (suc i))

each_up-offsets :
    {S : Type 0}
    → (pf : Address → ℕ → S → Answer × S) (ls : Bins) (n i : ℕ) (s : S) → n + i ≡ length ls
    → each_up pf n i (concat ls) (offsets 0 ls) s ≡ visit_up pf ls n i s
each_up-offsets pf ls zero i s h = refl
each_up-offsets pf ls (suc n) i s h =
    let start : get_or (offsets 0 ls) i 0 ≡ start_of ls i =
      get_or-offsets 0 i 0 ls (omega arith) ∙ omega arith in
    rw
      (
        length-offsets 0 ls,
        start,
        end_of_lem i ls (omega arith),
        sym (start_of-suc i ls (omega arith)),
        slice-offsets i ls (omega arith),
      )
      (ap (and_then pf (visit pf (i % u8_mod) (get_or ls i []) s))
        (λ j t. each_up-offsets pf ls n (suc i) t (omega arith) j))

visit_up-empty :
    {S : Type 0}
    → (pf : Address → ℕ → S → Answer × S) (ls : Bins) (n i : ℕ) (s : S) → length (concat ls) ≡ 0
    → visit_up pf ls n i s ≡ (go_on, s)
visit_up-empty pf ls zero i s h = refl
visit_up-empty pf ls (suc n) i s h = rw (no_peers i ls h) (visit_up-empty pf ls n (suc i) s h)

-- EachBinRev visits the bins from the shallowest to the deepest, and in each the peers in their order:
-- it goes to the next bin when the function says so, and ends when it says stop or fails.
pub each_bin_rev-Represents :
    {S : Type 0}
    → (pf : Address → ℕ → S → Answer × S) (p : PSlice) (ls : Bins) (s : S) → Represents p ls
    → each_bin_rev pf p s ≡ visit_up pf ls (length ls) 0 s
each_bin_rev-Represents pf p ls s r = elim (Bool-cases (length (concat ls) == 0)) [
  | inl e ↦ rw (r.peers_of, e) (sym (visit_up-empty pf ls (length ls) 0 s (ground arith)))
  | inr n ↦
      rw (r.bins_of, r.peers_of, n, length-offsets 0 ls)
        (each_up-offsets pf ls (length ls) 0 s (omega arith))
]
