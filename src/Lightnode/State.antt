-- ===== src/Lightnode/State.antt =====
-- The container of light nodes (pkg/topology/lightnode/container.go). A panic is `none`.
use sana.Common.{ℕ, ◌+◌, ◌%◌, ◌==◌, Option, none, some, List, [], ◌∷◌, if◌then◌else◌, length}
use sana.Common.Word.{u64_mod}
use sana.PeerSlice.Distance.{Address, equal}
use sana.PeerSlice.State.{
  PSlice, new_pslice, add, remove, exists, Answer, go_on, stop, each_bin_rev,
}

pub record Container : Type 0 where
  pub connected_peers : PSlice
  pub disconnected_peers : PSlice

unfoldable pub new_container : Address → Container
new_container base = record {
  connected_peers = new_pslice 1 base;
  disconnected_peers = new_pslice 1 base;
}

infixl 5 ◌>>=◌
abbrev pub ◌>>=◌ : {A B : Type 0} → Option A → (A → Option B) → Option B
none >>= k = none
some a >>= k = k a

unfoldable pub connected : Address → Container → Option Container
connected addr c = do
  joined ← add (addr ∷ []) c.connected_peers
  left ← remove addr c.disconnected_peers
  some (record { connected_peers = joined; disconnected_peers = left })

-- A peer that was connected leaves.
abbrev pub leave : Address → Container → Option Container
leave addr c = do
  joined ← remove addr c.connected_peers
  left ← add (addr ∷ []) c.disconnected_peers
  some (record { connected_peers = joined; disconnected_peers = left })

unfoldable pub disconnected : Address → Container → Option Container
disconnected addr c = if exists addr c.connected_peers then leave addr c else some c

abbrev pub count : Container → ℕ
count c = length c.connected_peers.peers

-- What RandomPeer calls for each peer, to find the one with the index that was drawn.
unfoldable pub pick : ℕ → Address → ℕ → ℕ × Address → Answer × (ℕ × Address)
pick i peer po (n, addr) = if n == i then (stop, (n, peer)) else (go_on, ((n + 1) % u64_mod, addr))

abbrev pub picked : ℕ → Address → Container → Address
picked i addr c = (each_bin_rev (pick i) c.connected_peers (0, addr)).1.1

-- RandomPeer, from the label PICKPEER on, with the numbers that are drawn, each below the number of
-- peers, and the address so far; `none` when another number has to be drawn.
unfoldable pub random_peer : List ℕ → Address → Address → Container → Option Address
random_peer [] addr except c = none
random_peer (i ∷ draws) addr except c =
    let peer = picked i addr c in
    let again = random_peer draws peer except c in if equal peer except then again else some peer

-- What the p2p service reports.
pub data Report : Type 0 where
  joins : Address → Report
  leaves : Address → Report

abbrev pub notify : Report → Container → Option Container
notify (joins addr) c = connected addr c
notify (leaves addr) c = disconnected addr c

abbrev pub notify_all : List Report → Container → Option Container
notify_all [] c = some c
notify_all (e ∷ es) c = do t ← notify e c; notify_all es t
