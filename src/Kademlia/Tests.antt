-- ===== src/Kademlia/Tests.antt =====
-- A node with a few peers (pkg/topology/kademlia/kademlia.go), and the theorems at it.
use sana.Common.{ℕ, ◌+◌, ◌∷◌, ◌≡◌, ◌≤◌, refl, true, false, none, [], arith, length, get_or}
use sana.PeerSlice.Distance.{
  Address, proximity, proximity_up_to, first_difference, first_bit, xor, distance_cmp,
}
use sana.PeerSlice.State.{PSlice, shallowest_empty, empty_from}
use sana.PeerSlice.Bins.{Bins, Represents}
use sana.Kademlia.State.{recalc_depth}
use sana.Kademlia.Closest.{Kad, found, closest_peer}
use sana.Kademlia.Depth.{recalc_depth-enough}
use sana.Kademlia.Nearest.{IsFound, closest_peer-IsFound}

abbrev base : Address
base = 0 ∷ []

abbrev far : ℕ → Address
far n = (128 + n) ∷ []

abbrev near : ℕ → Address
near n = (64 + n) ∷ []

-- Four peers in bin 0 and two in bin 1.
abbrev bins : Bins
bins = (far 1 ∷ far 2 ∷ far 3 ∷ far 4 ∷ []) ∷ (near 1 ∷ near 2 ∷ []) ∷ []

abbrev peers : PSlice
peers = record {
  peers = far 1 ∷ far 2 ∷ far 3 ∷ far 4 ∷ near 1 ∷ near 2 ∷ [];
  bins = 0 ∷ 4 ∷ [];
  base_bytes = base;
}

bins-Represents : Represents peers bins
unfolding proximity proximity_up_to first_difference first_bit xor
bins-Represents = record {
  peers_of = refl;
  bins_of = refl;
  placed = ((refl, (refl, (refl, (refl, tt)))), ((refl, (refl, tt)), tt));
}

depth_one : recalc_depth peers 31 ≡ 1
unfolding recalc_depth shallowest_empty empty_from
depth_one = refl

recalc_depth-enough_example : 4 ≤ length (get_or bins 0 [])
recalc_depth-enough_example =
    recalc_depth-enough peers bins 31 0 bins-Represents (omega arith)
      (let d = depth_one in omega arith)

abbrev kad : Kad
kad = record {
  base = base;
  known_peers = peers;
  connected_peers = peers;
  depth = 1;
  radius = 31;
  wait_next = λ _. none;
}

closest_peer-IsFound_example :
    IsFound (far 1 ∷ []) peers.peers (closest_peer 9 (far 2) true (far 1 ∷ []) peers.peers kad).0
closest_peer-IsFound_example =
    closest_peer-IsFound 9 (far 2) (far 1 ∷ []) peers.peers kad bins bins-Represents
      (refl, (refl, (refl, (refl, (refl, (refl, tt)))))) refl

nearest_found : (closest_peer 9 (far 2) true (far 1 ∷ []) peers.peers kad).0 ≡ found (far 2)
unfolding closest_peer distance_cmp xor
nearest_found = refl

-- Without the node itself, the first peer is answered although it is to be skipped, and so are all.
skipped_found : (closest_peer 9 (near 1) false peers.peers peers.peers kad).0 ≡ found (far 1)
unfolding closest_peer distance_cmp xor
skipped_found = refl
