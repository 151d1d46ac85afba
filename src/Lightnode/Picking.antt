-- ===== src/Lightnode/Picking.antt =====
-- The peers that RandomPeer answers (pkg/topology/lightnode/container.go).

use sana.Common.{
  ℕ, zero, suc, ◌+◌, ◌%◌, ◌<◌, ◌≡◌, refl, sym, ap, subst, ◌∙◌, Bool, true, false, ◌==◌, Option,
  none, some, List, [], ◌∷◌, length, get_or, arith, Bool-cases, inl, inr,
}
use sana.Common.Word.{u8_mod, u64_mod}
use sana.PeerSlice.Distance.{Address, equal, equal_refl}
use sana.PeerSlice.State.{Answer, go_on, stop, visit, and_then}
use sana.PeerSlice.Erasing.{found}
use sana.PeerSlice.Steps.{visit_go, visit_end}
use sana.PeerSlice.Ascending.{each_bin_rev-Represents}
use sana.Lightnode.State.{Container, count, pick, picked, random_peer}
use sana.Lightnode.Slice.{Single, peers-bin}

-- The walk stops at the peer with the index that is looked for.
visit-pick :
    (i b : ℕ) (l : List Address) (n j : ℕ) (addr : Address)
    → n + j ≡ i
    → j < length l
    → i < u64_mod
    → visit (pick i) b l (n, addr) ≡ (false, stop, (i, get_or l j []))
unfolding pick
visit-pick i b [] n j addr e h few = absurd (omega arith)
visit-pick i b (a ∷ l) n zero addr e h few =
    let here : n ≡ i = omega arith in
    let at : (i == i) ≡ true = ground arith in
    let answer : pick i a b (n, addr) ≡ (stop, (i, a)) = rw (here, at) refl in
    visit_end (pick i) b a l (n, addr) (i, a) answer
visit-pick i b (a ∷ l) n (suc j) addr e h few =
    let before : (n == i) ≡ false = ground arith in
    let kept : (n + 1) % u64_mod ≡ n + 1 = omega arith in
    let answer : pick i a b (n, addr) ≡ (go_on, (n + 1, addr)) = rw (before, kept) refl in
    visit_go (pick i) b a l (n, addr) (n + 1, addr) answer
    ∙ (visit-pick i b l (n + 1) j addr (omega arith) (omega arith) few)

get-found : (l : List Address) (i : ℕ) → i < length l → found (get_or l i []) l ≡ true
get-found [] i h = absurd (omega arith)
get-found (a ∷ l) zero h = rw (equal_refl a) refl
get-found (a ∷ l) (suc i) h = ground (arith, get-found l i (omega arith))

picked_lem :
    (c : Container) (n i : ℕ) (addr : Address)
    → Single c.connected_peers n
    → n < u64_mod
    → i < count c
    → picked i addr c ≡ get_or c.connected_peers.peers i []
picked_lem c n i addr k few h =
    let same = peers-bin c.connected_peers k.bin k.laid_out in
    let tiny = k.small in
    let inside : i < length k.bin = subst (λ l. i < length l) same h in
    let walk =
      each_bin_rev-Represents (pick i) c.connected_peers (k.bin ∷ []) (0, addr) k.laid_out in
    let one = visit-pick i (0 % u8_mod) k.bin 0 i addr (omega arith) inside (omega arith) in
    ap (λ w. w.1.1) (walk ∙ ap rest one) ∙ ap (λ l. get_or l i []) (sym same)
  where
    rest : Bool × Answer × (ℕ × Address) → Answer × (ℕ × Address)
    rest w = and_then (pick i) w (λ s. (go_on, s))

-- All the numbers are indexes of peers.
abbrev pub AllBelow : ℕ → List ℕ → Type 0
AllBelow n [] = Unit {0}
AllBelow n (i ∷ draws) = (i < n) × AllBelow n draws

-- Each number is the index of this peer.
abbrev pub AllPick : Address → List Address → List ℕ → Type 0
AllPick except l [] = Unit {0}
AllPick except l (i ∷ draws) = (equal (get_or l i []) except ≡ true) × AllPick except l draws

-- A connected peer that is not the one to be avoided, or another number has to be drawn because each
-- one so far was that of the peer to be avoided.
abbrev pub IsOther : Container → Address → List ℕ → Option Address → Type 0
IsOther c except draws (some p) =
    (found p c.connected_peers.peers ≡ true) × (equal p except ≡ false)
IsOther c except draws none = AllPick except c.connected_peers.peers draws

IsOther-again :
    (c : Container) (except : Address) (i : ℕ) (draws : List ℕ) (answer : Option Address)
    → equal (get_or c.connected_peers.peers i []) except ≡ true
    → IsOther c except draws answer
    → IsOther c except (i ∷ draws) answer
IsOther-again c except i draws none e h = (e, h)
IsOther-again c except i draws (some p) e h = h

-- RandomPeer, on a slice of one bin and with fewer than 2^64 peers, answers a connected peer that is not
-- the one to be avoided, and draws again only when each number so far was that of the one to be avoided.
pub random_peer-IsOther :
    (c : Container) (n : ℕ) (except addr : Address) (draws : List ℕ)
    → Single c.connected_peers n
    → n < u64_mod
    → AllBelow (count c) draws
    → IsOther c except draws (random_peer draws addr except c)
unfolding random_peer
random_peer-IsOther c n except addr [] k few below = tt
random_peer-IsOther c n except addr (i ∷ draws) k few below =
    let e = picked_lem c n i addr k few below.0 in
    let peer = get_or c.connected_peers.peers i [] in
    elim (Bool-cases (equal peer except)) [
      | inl y ↦
          rw (e, y)
            (IsOther-again c except i draws (random_peer draws peer except c) y
              (random_peer-IsOther c n except peer draws k few below.1))
      | inr z ↦ rw (e, z) (get-found c.connected_peers.peers i below.0, z)
    ]
