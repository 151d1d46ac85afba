-- ===== src/Kademlia/Closest.antt =====
-- Connections, and the search for the peer that is nearest to an address
-- (pkg/topology/kademlia/kademlia.go, pkg/topology/kademlia/internal/waitnext/waitnext.go). `retry_at` is
-- the time after which a peer that is gone is tried again. A panic is `none`.
use sana.Common.{ℕ, Bool, false, ◌||◌, Option, none, some, List, [], ◌∷◌, ◌++◌, ◌==◌, if◌then◌else◌}
use sana.PeerSlice.Distance.{Address, equal, Closer, first, equally, second, distance_cmp}
use sana.PeerSlice.State.{PSlice, Answer, go_on, fail, each_bin_rev, size, add, remove}
use sana.Kademlia.State.{recalc_depth}

-- When to try a peer again, and the attempts that failed.
pub record Next : Type 0 where
  pub try_after : ℕ
  pub failed_attempts : ℕ

pub record Kad : Type 0 where
  pub base : Address
  pub known_peers : PSlice
  pub connected_peers : PSlice
  pub depth : ℕ
  pub radius : ℕ
  pub wait_next : Address → Option Next

-- SetTryAfter keeps the attempts.
abbrev pub tried : ℕ → Option Next → Next
tried t none = record { try_after = t; failed_attempts = 0 }
tried t (some n) = record n { try_after = t }

abbrev pub set_try_after : Address → ℕ → (Address → Option Next) → Address → Option Next
set_try_after addr t next_of a = if equal a addr then some (tried t (next_of a)) else next_of a

abbrev pub forget : Address → (Address → Option Next) → Address → Option Next
forget addr next_of a = if equal a addr then none else next_of a

abbrev pub with_depth : Kad → Kad
with_depth k = record k { depth = recalc_depth k.connected_peers k.radius }

abbrev pub and_disconnected : ℕ → Address → Kad → Option PSlice → Option Kad
and_disconnected retry_at addr k none = none
and_disconnected retry_at addr k (some peers) = some (
    with_depth
      (record k { connected_peers = peers; wait_next = set_try_after addr retry_at k.wait_next }))

-- Disconnected
abbrev pub disconnected : ℕ → Address → Kad → Option Kad
disconnected retry_at addr k = and_disconnected retry_at addr k (remove addr k.connected_peers)

abbrev pub and_connected : Address → Kad → Option PSlice → Option PSlice → Option Kad
and_connected addr k (some known) (some peers) = some (
    with_depth (record k {
      known_peers = known;
      connected_peers = peers;
      wait_next = forget addr k.wait_next;
    }))
and_connected addr k none _ = none
and_connected addr k (some _) none = none

-- connected, when Announce does not fail.
abbrev pub connected : Address → Kad → Option Kad
connected addr k =
    and_connected addr k (add (addr ∷ []) k.known_peers) (add (addr ∷ []) k.connected_peers)

-- SetRadius
abbrev pub set_radius : ℕ → Kad → Kad
set_radius r k = if k.radius == r then k else with_depth (record k { radius = r })

abbrev pub is_zero : Address → Bool
is_zero a = equal a []

-- isIn, and the loop over skipPeers.
abbrev pub is_in : Address → List Address → Bool
is_in a [] = false
is_in a (b ∷ bs) = equal b a || is_in a bs

-- The closest peer so far, and the peers to disconnect.
abbrev pub Search : Type 0
Search = Address × List Address

abbrev pub nearer_peer : Address → Address → List Address → Option Closer → Answer × Search
nearer_peer closest peer gone none = (fail, (closest, gone))
nearer_peer closest peer gone (some equally) = (go_on, (closest, gone))
nearer_peer closest peer gone (some second) = (go_on, (peer, gone))
nearer_peer closest peer gone (some first) = (go_on, (closest, gone))

-- The function that ClosestPeer passes to EachBinRev.
abbrev pub search_peer :
    Address → List Address → List Address → Address → ℕ → Search → Answer × Search
search_peer addr skip_peers peers peer po (closest, gone) =
    let from = if is_zero closest then peer else closest in
    if is_in peer skip_peers
    then (go_on, (from, gone))
    else if is_in peer peers
    then nearer_peer from peer gone (distance_cmp addr from peer)
    else (go_on, (from, gone ++ peer ∷ []))

pub data Result : Type 0 where
  not_found : Result
  want_self : Result
  distance_error : Result
  found : Address → Result

abbrev pub disconnect_all : ℕ → List Address → Kad → Option Kad
disconnect_all retry_at [] k = some k
disconnect_all retry_at (a ∷ rest) k = elim (disconnected retry_at a k) [
  | none ↦ none
  | some after ↦ disconnect_all retry_at rest after
]

abbrev pub result_of : Address → Address → Result
result_of base closest = if equal closest base then want_self else found closest

abbrev pub ended : ℕ → Kad → Answer × Search → Result × Option Kad
ended retry_at k (fail, _) = (distance_error, some k)
ended retry_at k (_, (closest, gone)) =
    if is_zero closest
    then (not_found, some k)
    else (result_of k.base closest, disconnect_all retry_at gone k)

-- ClosestPeer; `peers` are those of the p2p service.
unfoldable pub closest_peer :
    ℕ → Address → Bool → List Address → List Address → Kad → Result × Option Kad
closest_peer retry_at addr include_self skip_peers peers k =
    if size k.connected_peers == 0
    then (not_found, some k)
    else ended retry_at k (
        each_bin_rev (search_peer addr skip_peers peers) k.connected_peers
          (if include_self then k.base else [], []))
