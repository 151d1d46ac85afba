-- ===== src/PeerSlice/Tests.antt =====
-- The theorems on addresses and bins at concrete ones (pkg/topology/pslice/pslice.go and
-- pkg/swarm/proximity.go).
use sana.Common.{none, ◌⊎◌, ℕ, ◌≡◌, refl, true, false, some, List, [], ◌∷◌, arith}
use sana.PeerSlice.Nearness.{nearer, distance_cmp-distance}
use sana.PeerSlice.Distance.{
  distance, distance_cmp, Address, xor, first_bit, first_difference, proximity, proximity_up_to,
}
use sana.PeerSlice.State.{
  PSlice, Answer, stop, each_bin, po, find, add_one, remove, exists, inc_from, inc_deeper,
}
use sana.PeerSlice.Bins.{Bins, Represents, cons_at, erase_at}
use sana.PeerSlice.Adding.{add_one-Represents}
use sana.PeerSlice.Removing.{remove-Represents}
use sana.PeerSlice.Visiting.{Visits, bins_down, each_bin-Represents}

abbrev near : Address
near = 0 ∷ 0 ∷ 0 ∷ 3 ∷ []

abbrev far : Address
far = 64 ∷ 0 ∷ 0 ∷ 0 ∷ []

abbrev base : Address
base = 0 ∷ 0 ∷ 0 ∷ 0 ∷ []

abbrev slice_of_two : PSlice
slice_of_two = record { peers = far ∷ near ∷ []; bins = 0 ∷ 0 ∷ 1 ∷ []; base_bytes = base }

abbrev two_bins : Bins
two_bins = [] ∷ (far ∷ []) ∷ (near ∷ []) ∷ []

two_bins-Represents : Represents slice_of_two two_bins
unfolding proximity proximity_up_to first_difference first_bit xor
two_bins-Represents = record {
  peers_of = refl;
  bins_of = refl;
  placed = (tt, ((refl, tt), ((refl, tt), tt)));
}

add_one-Represents_example :
    (t : PSlice) × (add_one (5 ∷ []) slice_of_two ≡ some t)
    × Represents t (cons_at (po slice_of_two (5 ∷ [])) (5 ∷ []) two_bins)
add_one-Represents_example =
    add_one-Represents slice_of_two two_bins (5 ∷ []) two_bins-Represents (omega arith)
      (omega arith) (omega arith)

remove-Represents_example :
    (t : PSlice) × (remove near slice_of_two ≡ some t)
    × Represents t (erase_at (po slice_of_two near) near two_bins)
remove-Represents_example =
    remove-Represents slice_of_two two_bins near two_bins-Represents (omega arith) (omega arith)
      (omega arith) refl

abbrev far_alone : PSlice
far_alone = record { peers = far ∷ []; bins = 0 ∷ 0 ∷ 1 ∷ []; base_bytes = base }

near_is_new : exists near far_alone ≡ false
unfolding find
near_is_new = refl

near_added : add_one near far_alone ≡ some slice_of_two
unfolding add_one inc_deeper inc_from po proximity proximity_up_to first_difference first_bit xor
near_added = refl

far_is_known : exists far slice_of_two ≡ true
unfolding find
far_is_known = refl

differs : xor 6 7 ≡ 1
unfolding xor
differs = refl

-- Stops at the first peer, which it keeps.
abbrev keep_first : Address → ℕ → List Address → Answer × List Address
keep_first a _ s = (stop, a ∷ s)

each_bin-Represents_example :
    Visits keep_first
      (bins_down 3 two_bins)
      []
      (each_bin keep_first slice_of_two []).0
      (each_bin keep_first slice_of_two []).1
each_bin-Represents_example =
    each_bin-Represents keep_first slice_of_two two_bins [] two_bins-Represents

deepest_first : each_bin keep_first slice_of_two [] ≡ (stop, near ∷ [])
deepest_first = refl

distance_cmp-distance_example :
    (◌≡◌ {A = ℕ} 4 4
      → ◌≡◌ {A = ℕ} 4 4
      → (dx : ℕ) × (dy : ℕ) × (distance near base ≡ some dx)
        × (distance far base ≡ some dy)
        × (distance_cmp base near far ≡ some (nearer dx dy)))
    × (distance_cmp base near far ≡ none → (distance near base ≡ none) ⊎ (distance far base ≡ none))
distance_cmp-distance_example = distance_cmp-distance base near far
