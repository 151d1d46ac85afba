-- ===== src/Kademlia/Depth.antt =====
-- The bins above the depth (pkg/topology/kademlia/kademlia.go).
use sana.Common.{
  ℕ, zero, suc, ◌+◌, ◌≤◌, ◌<◌, ◌≡◌, refl, sym, subst, Bool, true, false, Option, none, some, [],
  ◌∷◌, length, get_or, ltb, leb, inl, inr, arith, Bool-cases, if◌then◌else◌, ltb→lt,
}
use sana.Common.Word.{u8_mod}
use sana.PeerSlice.State.{PSlice, each_bin_rev, shallowest_empty}
use sana.PeerSlice.Bins.{Bins, Represents}
use sana.PeerSlice.Reading.{first_empty, shallowest_empty-Represents}
use sana.PeerSlice.Ascending.{visit_up, each_bin_rev-Represents}
use sana.Kademlia.State.{
  count_bin, at_most_empty, shallowest_unsaturated, recalc_depth, at_most_radius, candidate_depth,
  nn_low_watermark,
}
use sana.Kademlia.Filled.{Filled, Knows, Ends, loop-Ends}

-- The bins before the first empty one have a peer.
full_before :
    (k b : ℕ) (ls : Bins) → b < length ls → first_empty k ls ≡ none → get_or ls b [] ≡ [] → ⊥
full_before k b [] l h e = absurd (omega arith)
full_before k b ([] ∷ ls) l h e = absurd (ground arith)
full_before k zero ((a ∷ m) ∷ ls) l h e = absurd (ground arith)
full_before k (suc b) ((a ∷ m) ∷ ls) l h e = full_before (k + 1) b ls (omega arith) h e

full_before_some :
    (k b x : ℕ) (ls : Bins) → k + b < x → first_empty k ls ≡ some x → get_or ls b [] ≡ [] → ⊥
full_before_some k b x [] l h e = absurd (ground arith)
full_before_some k b x ([] ∷ ls) l h e = absurd (ground arith)
full_before_some k zero x ((a ∷ m) ∷ ls) l h e = absurd (ground arith)
full_before_some k (suc b) x ((a ∷ m) ∷ ls) l h e =
    full_before_some (k + 1) b x ls (omega arith) h e

-- Four peers in each bin before the shallowest that is unsaturated or empty.
enough :
    (ls : Bins) (b shallowest : ℕ) (empty : Option ℕ)
    → first_empty 0 ls ≡ empty
    → Filled ls shallowest
    → shallowest ≤ length ls
    → b < at_most_empty shallowest empty
    → 4 ≤ length (get_or ls b [])
enough ls b shallowest none e f u l = elim (f b l) [
  | inl x ↦ absurd (full_before 0 b ls (omega arith) e x)
  | inr x ↦ x
]
enough ls b shallowest (some x) e f u l =
    let inside : b < shallowest = ground arith in
    let before : 0 + b < x = ground arith in
    elim (f b inside) [ inl z ↦ absurd (full_before_some 0 b x ls before e z) | inr z ↦ z ]

at_most_radius_le : (radius d : ℕ) → at_most_radius radius d ≤ d
at_most_radius_le radius d = ground arith

depth_le : (peers : PSlice) (radius : ℕ) → recalc_depth peers radius ≤ shallowest_unsaturated peers
unfolding recalc_depth
depth_le peers radius =
    let shallowest = shallowest_unsaturated peers in
    let candidate = candidate_depth peers in
    go (leb (length peers.peers) nn_low_watermark) shallowest candidate
  where
    go :
        (few : Bool) (shallowest candidate : ℕ)
        → (if few
            then 0
            else if ltb candidate shallowest
            then at_most_radius radius candidate
            else at_most_radius radius shallowest)
          ≤ shallowest
    go true shallowest candidate = omega arith
    go false shallowest candidate =
        let a = at_most_radius_le radius candidate in
        let b = at_most_radius_le radius shallowest in
        elim (Bool-cases (ltb candidate shallowest)) [
          | inl e ↦ let c = ltb→lt candidate shallowest e in rw e (omega arith)
          | inr n ↦ rw n b
        ]

start-Knows : (ls : Bins) → Knows ls 0 (0, 0)
start-Knows ls = (
  λ b h. absurd (omega arith),
  λ b h g. absurd (omega arith),
  λ h. absurd (omega arith),
  omega arith,
  λ _. refl,
)

-- Each bin shallower than the depth that recalcDepth gives, of at most 255, has at least four peers
-- (quickSaturationPeers).
pub recalc_depth-enough :
    (peers : PSlice) (ls : Bins) (radius b : ℕ)
    → Represents peers ls
    → length ls < u8_mod
    → b < recalc_depth peers radius
    → 4 ≤ length (get_or ls b [])
recalc_depth-enough peers ls radius b r few h =
    let ends = loop-Ends ls (length ls) 0 0 0 (omega arith) (omega arith) (start-Knows ls) in
    let loop = (each_bin_rev count_bin peers (0, 0)).1.0 in
    let same : each_bin_rev count_bin peers (0, 0) ≡ visit_up count_bin ls (length ls) 0 (0, 0) =
      each_bin_rev-Represents count_bin peers ls (0, 0) r in
    let known : Ends ls (each_bin_rev count_bin peers (0, 0)) = subst (Ends ls) (sym same) ends in
    let d = depth_le peers radius in
    enough ls b loop (shallowest_empty peers) (sym (shallowest_empty-Represents peers ls r few))
      known.0 known.1 (omega arith)
