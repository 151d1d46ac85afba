-- ===== src/Lightnode/Tests.antt =====
-- A container with a few peers (pkg/topology/lightnode/container.go), and the theorems at it.
use sana.Common.{◌≡◌, refl, some, none, List, [], ◌∷◌, arith}
use sana.PeerSlice.Distance.{Address, proximity, proximity_up_to, first_difference, first_bit, xor}
use sana.Lightnode.State.{
  Container, new_container, Report, joins, leaves, notify_all, random_peer, pick,
}
use sana.Lightnode.Slice.{Single}
use sana.Lightnode.Tracking.{notify_all-Tracks}
use sana.Lightnode.Places.{unknown, place_after, Tracks}
use sana.Lightnode.Picking.{IsOther, random_peer-IsOther}

abbrev base : Address
base = 0 ∷ []

abbrev first : Address
first = 129 ∷ []

abbrev second : Address
second = 130 ∷ []

-- The first peer leaves and comes back, the second one stays, and a peer leaves that was never here.
abbrev reports : List Report
reports = joins first ∷ joins second ∷ leaves first ∷ leaves base ∷ joins first ∷ joins second ∷ []

notify_all-Tracks_example :
    (t : Container) × (notify_all reports (new_container base) ≡ some t)
    × Tracks t (λ a. place_after a reports unknown)
notify_all-Tracks_example = notify_all-Tracks base reports (omega arith)

abbrev two : Container
two = record {
  connected_peers = record { peers = first ∷ second ∷ []; bins = 0 ∷ []; base_bytes = base };
  disconnected_peers = record { peers = []; bins = 0 ∷ []; base_bytes = base };
}

two-Single : Single two.connected_peers 2
unfolding proximity proximity_up_to first_difference first_bit xor
two-Single = record {
  bin = first ∷ second ∷ [];
  laid_out = record { peers_of = refl; bins_of = refl; placed = ((refl, (refl, tt)), tt) };
  distinct = (refl, (refl, tt));
  small = omega arith;
}

random_peer-IsOther_example :
    IsOther two first (0 ∷ 0 ∷ 1 ∷ []) (random_peer (0 ∷ 0 ∷ 1 ∷ []) [] first two)
random_peer-IsOther_example =
    random_peer-IsOther two 2 first [] (0 ∷ 0 ∷ 1 ∷ []) two-Single (omega arith)
      (omega arith, (omega arith, (omega arith, tt)))

second_picked : random_peer (0 ∷ 0 ∷ 1 ∷ []) [] first two ≡ some second
unfolding random_peer pick
second_picked = refl

-- With no other peer no answer comes, whatever is drawn.
abbrev alone : Container
alone = record two {
  connected_peers = record { peers = first ∷ []; bins = 0 ∷ []; base_bytes = base };
}

none_picked : random_peer (0 ∷ 0 ∷ 0 ∷ []) [] first alone ≡ none
unfolding random_peer pick
none_picked = refl
