-- ===== src/Kademlia/Nearest.antt =====
-- What ClosestPeer finds (pkg/topology/kademlia/kademlia.go).
use sana.Common.{
  ℕ, zero, suc, ◌%◌, ◌≡◌, refl, sym, subst, Bool, true, false, Option, none, some, List, [], ◌∷◌,
  ◌++◌, length, get_or, ◌==◌, ◌⊎◌, inl, inr, Bool-cases, if◌then◌else◌,
}
use sana.Common.Word.{u8_mod}
use sana.PeerSlice.Distance.{Address, equal, Closer, first, equally, second, distance_cmp}
use sana.PeerSlice.State.{PSlice, Answer, go_on, stop, next, fail, visit, and_then, each_bin_rev}
use sana.PeerSlice.Bins.{Bins, concat, Represents}
use sana.PeerSlice.Ascending.{visit_up, each_bin_rev-Represents}
use sana.PeerSlice.Distance.{equal_refl}
use sana.Kademlia.Closest.{
  Search, is_zero, is_in, nearer_peer, search_peer, Kad, Result, found, want_self, not_found,
  distance_error, result_of, ended, closest_peer,
}

-- A predicate on states that every call keeps, going on or failing, holds at the end.
abbrev pub Keeps : {S : Type 0} → (S → Type 0) → Answer × S → Type 0
Keeps P (go_on, s) = P s
Keeps P (fail, s) = Unit {0}
Keeps P (stop, s) = ⊥
Keeps P (next, s) = ⊥

abbrev pub KeepsBin : {S : Type 0} → (S → Type 0) → Bool × Answer × S → Type 0
KeepsBin P (true, _, s) = P s
KeepsBin P (false, a, s) = Keeps P (a, s)

abbrev pub AllOf : (Address → Type 0) → List Address → Type 0
AllOf Q [] = Unit {0}
AllOf Q (a ∷ l) = Q a × AllOf Q l

module _ {S : Type 0} (pf : Address → ℕ → S → Answer × S) (P : S → Type 0)
    (Q : Address → Type 0) where
  abbrev Kept : Type 0
  Kept = (a : Address) (i : ℕ) (s : S) → Q a → P s → Keeps P (pf a i s)

  visit-Keeps :
      Kept → (i : ℕ) (l : List Address) (s : S) → AllOf Q l → P s → KeepsBin P (visit pf i l s)
  visit-Keeps h i [] s q p = p
  visit-Keeps h i (a ∷ l) s all p =
      by_answer (pf a i s) (h a i s all.0 p) (λ t q. visit-Keeps h i l t all.1 q)
    where
      by_answer :
          (x : Answer × S)
          → Keeps P x
          → ((t : S) → P t → KeepsBin P (visit pf i l t))
          → KeepsBin P (elim x.0 as (λ _. Bool × Answer × S) [
            | go_on ↦ visit pf i l x.1
            | next ↦ (true, go_on, x.1)
            | stop ↦ (false, stop, x.1)
            | fail ↦ (false, fail, x.1)
          ])
      by_answer (go_on, t) q k = k t q
      by_answer (fail, t) q k = tt
      by_answer (stop, t) q k = elim q [ ]
      by_answer (next, t) q k = elim q [ ]

  and_then-Keeps :
      (x : Bool × Answer × S) (k : S → Answer × S)
      → KeepsBin P x
      → ((t : S) → P t → Keeps P (k t))
      → Keeps P (and_then pf x k)
  and_then-Keeps (true, a, s) k p h = h s p
  and_then-Keeps (false, a, s) k p h = p

  visit_up-Keeps :
      Kept
      → (ls : Bins) → ((i : ℕ) → AllOf Q (get_or ls i []))
      → (n i : ℕ) (s : S) → P s
      → Keeps P (visit_up pf ls n i s)
  visit_up-Keeps h ls all zero i s p = p
  visit_up-Keeps h ls all (suc n) i s p =
      and_then-Keeps (visit pf (i % u8_mod) (get_or ls i []) s) (visit_up pf ls n (suc i))
        (visit-Keeps h (i % u8_mod) (get_or ls i []) s (all i) p)
        (λ t q. visit_up-Keeps h ls all n (suc i) t q)

-- All the peers of the bins are in one list, and the other way round.
AllOf-append :
    (Q : Address → Type 0) (l m : List Address) → AllOf Q (l ++ m) → AllOf Q l × AllOf Q m
AllOf-append Q [] m h = (tt, h)
AllOf-append Q (a ∷ l) m h = let r = AllOf-append Q l m h.1 in ((h.0, r.0), r.1)

AllOf-bins :
    (Q : Address → Type 0) (ls : Bins) → AllOf Q (concat ls) → (i : ℕ) → AllOf Q (get_or ls i [])
AllOf-bins Q [] h i = tt
AllOf-bins Q (l ∷ ls) h zero = (AllOf-append Q l (concat ls) h).0
AllOf-bins Q (l ∷ ls) h (suc i) = AllOf-bins Q ls (AllOf-append Q l (concat ls) h).1 i

pub each_bin_rev-Keeps :
    {S : Type 0}
    → (pf : Address → ℕ → S → Answer × S) (P : S → Type 0) (Q : Address → Type 0)
    → ((a : Address) (i : ℕ) (s : S) → Q a → P s → Keeps P (pf a i s))
    → (p : PSlice) (ls : Bins) (s : S) → Represents p ls
    → AllOf Q p.peers
    → P s
    → Keeps P (each_bin_rev pf p s)
each_bin_rev-Keeps pf P Q h p ls s r all k =
    subst (Keeps P) (sym (each_bin_rev-Represents pf p ls s r)) (
      visit_up-Keeps pf P Q h ls (AllOf-bins Q ls (subst (AllOf Q) r.peers_of all)) (length ls) 0 s
        k)

-- The peer is not to be skipped, and the p2p service has it.
abbrev pub IsFit : List Address → List Address → Address → Type 0
IsFit skip_peers peers a = (is_in a skip_peers ≡ false) × (is_in a peers ≡ true)

-- The closest so far, when the search begins with the node itself.
abbrev pub FromSelf : Address → List Address → List Address → Search → Type 0
FromSelf base skip_peers peers (closest, gone) =
    (is_zero closest ≡ false) × ((closest ≡ base) ⊎ IsFit skip_peers peers closest)

abbrev pub IsPeer : Address → Type 0
IsPeer a = is_zero a ≡ false

nearer-FromSelf :
    (base : Address) (skip_peers peers : List Address) (closest peer : Address)
    (gone : List Address) (x : Option Closer)
    → IsPeer peer
    → IsFit skip_peers peers peer
    → FromSelf base skip_peers peers (closest, gone)
    → Keeps (FromSelf base skip_peers peers) (nearer_peer closest peer gone x)
nearer-FromSelf base skip_peers peers closest peer gone none z f k = tt
nearer-FromSelf base skip_peers peers closest peer gone (some first) z f k = k
nearer-FromSelf base skip_peers peers closest peer gone (some equally) z f k = k
nearer-FromSelf base skip_peers peers closest peer gone (some second) z f k = (z, inr f)

search-FromSelf :
    (addr base : Address) (skip_peers peers : List Address) (peer : Address) (po : ℕ) (s : Search)
    → IsPeer peer
    → FromSelf base skip_peers peers s
    → Keeps (FromSelf base skip_peers peers) (search_peer addr skip_peers peers peer po s)
search-FromSelf addr base skip_peers peers peer po (closest, gone) z k =
    elim (Bool-cases (is_in peer skip_peers)) [
      | inl e ↦ rw (k.0, e) k
      | inr n ↦ elim (Bool-cases (is_in peer peers)) [
        | inl e ↦
            rw (k.0, n, e)
              (nearer-FromSelf base skip_peers peers closest peer gone
                (distance_cmp addr closest peer) z (n, e) k)
        | inr m ↦ rw (k.0, n, m) k
      ]
    ]

-- What ClosestPeer may answer.
abbrev pub IsFound : List Address → List Address → Result → Type 0
IsFound skip_peers peers (found a) = IsFit skip_peers peers a
IsFound skip_peers peers not_found = Unit {0}
IsFound skip_peers peers want_self = Unit {0}
IsFound skip_peers peers distance_error = Unit {0}

ended-IsFound :
    (retry_at : ℕ) (k : Kad) (skip_peers peers : List Address) (x : Answer × Search)
    → Keeps (FromSelf k.base skip_peers peers) x
    → IsFound skip_peers peers (ended retry_at k x).0
ended-IsFound retry_at k skip_peers peers (fail, s) h = tt
ended-IsFound retry_at k skip_peers peers (stop, s) h = elim h [ ]
ended-IsFound retry_at k skip_peers peers (next, s) h = elim h [ ]
ended-IsFound retry_at k skip_peers peers (go_on, (closest, gone)) h = rw h.0 (answer h.1)
  where
    answer :
        (closest ≡ k.base) ⊎ IsFit skip_peers peers closest
        → IsFound skip_peers peers (result_of k.base closest)
    answer (inl e) = let t : equal closest k.base ≡ true = rw e (equal_refl k.base) in rw t tt
    answer (inr f) = elim (Bool-cases (equal closest k.base)) [ inl e ↦ rw e tt | inr n ↦ rw n f ]

unless_empty :
    (skip_peers peers : List Address) (k : Kad) (none_left : Bool) (out : Result × Option Kad)
    → IsFound skip_peers peers out.0
    → IsFound skip_peers peers (if none_left then (not_found, some k) else out).0
unless_empty skip_peers peers k true out h = tt
unless_empty skip_peers peers k false out h = h

-- With the node itself included, a peer that ClosestPeer answers is not one to be skipped, and the p2p
-- service is connected to it.
pub closest_peer-IsFound :
    (retry_at : ℕ) (addr : Address) (skip_peers peers : List Address) (k : Kad) (ls : Bins)
    → Represents k.connected_peers ls
    → AllOf IsPeer k.connected_peers.peers
    → IsPeer k.base
    → IsFound skip_peers peers (closest_peer retry_at addr true skip_peers peers k).0
unfolding closest_peer
closest_peer-IsFound retry_at addr skip_peers peers k ls r all b =
    unless_empty skip_peers peers k (length k.connected_peers.peers == 0)
      (ended retry_at k
        (each_bin_rev (search_peer addr skip_peers peers) k.connected_peers (k.base, [])))
      (ended-IsFound retry_at k skip_peers peers
        (each_bin_rev (search_peer addr skip_peers peers) k.connected_peers (k.base, []))
        (each_bin_rev-Keeps (search_peer addr skip_peers peers) (FromSelf k.base skip_peers peers)
          IsPeer (λ a i s. search-FromSelf addr k.base skip_peers peers a i s) k.connected_peers ls
          (k.base, []) r all (b, inl refl)))
