-- ===== src/Lightnode/Places.antt =====
-- Where a light node is, by its own reports alone, and a container that agrees
-- (pkg/topology/lightnode/container.go).
use sana.Common.{ℕ, ◌≡◌, Bool, true, false, List, [], ◌∷◌, if◌then◌else◌}
use sana.PeerSlice.Distance.{Address, equal}
use sana.PeerSlice.Erasing.{found}
use sana.Lightnode.State.{Container, Report, joins, leaves}
use sana.Lightnode.Slice.{Single}

-- A peer that was never here, one that is connected, and one that was.
pub data Place : Type 0 where
  unknown : Place
  joined : Place
  left : Place

abbrev pub is_joined : Place → Bool
is_joined unknown = false
is_joined joined = true
is_joined left = false

abbrev pub is_left : Place → Bool
is_left unknown = false
is_left joined = false
is_left left = true

-- Leaving, for a peer that may never have been here.
abbrev pub gone : Place → Place
gone unknown = unknown
gone joined = left
gone left = left

abbrev pub move : Address → Report → Place → Place
move a (joins b) p = if equal b a then joined else p
move a (leaves b) p = if equal b a then gone p else p

-- The place of an address after the reports, by its own reports alone.
abbrev pub place_after : Address → List Report → Place → Place
place_after a [] p = p
place_after a (e ∷ es) p = place_after a es (move a e p)

-- Each address is in the slice that its place says, and in no other.
abbrev pub Tracks : Container → (Address → Place) → Type 0
Tracks c place =
    (a : Address)
    → (found a c.connected_peers.peers ≡ is_joined (place a))
      × (found a c.disconnected_peers.peers ≡ is_left (place a))

pub record Known (c : Container) (n : ℕ) (place : Address → Place) : Type 0 where
  pub joined_bin : Single c.connected_peers n
  pub left_bin : Single c.disconnected_peers n
  pub tracked : Tracks c place
