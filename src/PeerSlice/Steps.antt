-- ===== src/PeerSlice/Steps.antt =====
-- One step of the loops of EachBin and EachBinRev (pkg/topology/pslice/pslice.go).
use sana.Common.{ℕ, ◌≡◌, refl, ap, ◌∙◌, Bool, true, false, List, ◌∷◌}
use sana.PeerSlice.Distance.{Address}
use sana.PeerSlice.State.{Answer, go_on, stop, next, fail, visit}

-- The rest of the peers of a bin, by the answer for the first.
abbrev pub after_first :
    {S : Type 0}
    → (Address → ℕ → S → Answer × S)
    → ℕ
    → List Address
    → Answer × S
    → Bool × Answer × S
after_first pf i l (go_on, t) = visit pf i l t
after_first pf i l (next, t) = (true, go_on, t)
after_first pf i l (stop, t) = (false, stop, t)
after_first pf i l (fail, t) = (false, fail, t)

pub visit_first :
    {S : Type 0}
    → (pf : Address → ℕ → S → Answer × S) (i : ℕ) (a : Address) (l : List Address) (s : S)
      (x : Answer × S)
    → pf a i s ≡ x
    → visit pf i (a ∷ l) s ≡ after_first pf i l x
visit_first {S} pf i a l s x e = by_answer (pf a i s) ∙ ap (after_first pf i l) e
  where
    by_answer :
        (y : Answer × S)
        → elim y.0 as (λ _. Bool × Answer × S) [
          | go_on ↦ visit pf i l y.1
          | next ↦ (true, go_on, y.1)
          | stop ↦ (false, stop, y.1)
          | fail ↦ (false, fail, y.1)
        ]
          ≡ after_first pf i l y
    by_answer (go_on, t) = refl
    by_answer (next, t) = refl
    by_answer (stop, t) = refl
    by_answer (fail, t) = refl

pub visit_go :
    {S : Type 0}
    → (pf : Address → ℕ → S → Answer × S) (i : ℕ) (a : Address) (l : List Address) (s t : S)
    → pf a i s ≡ (go_on, t)
    → visit pf i (a ∷ l) s ≡ visit pf i l t
visit_go pf i a l s t e = visit_first pf i a l s (go_on, t) e

pub visit_end :
    {S : Type 0}
    → (pf : Address → ℕ → S → Answer × S) (i : ℕ) (a : Address) (l : List Address) (s t : S)
    → pf a i s ≡ (stop, t)
    → visit pf i (a ∷ l) s ≡ (false, stop, t)
visit_end pf i a l s t e = visit_first pf i a l s (stop, t) e
