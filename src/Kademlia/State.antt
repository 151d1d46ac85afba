-- ===== src/Kademlia/State.antt =====
-- recalcDepth, binSaturated and IsWithinDepth (pkg/topology/kademlia/kademlia.go).
use sana.Common.{ℕ, ◌+◌, Bool, false, ◌&&◌, Option, none, some, ltb, leb, ◌==◌, if◌then◌else◌}
use sana.PeerSlice.Distance.{Address, proximity, max_po}
use sana.PeerSlice.State.{
  PSlice, Answer, go_on, stop, each_bin, each_bin_rev, shallowest_empty, size,
}

abbrev pub nn_low_watermark : ℕ
nn_low_watermark = 2

abbrev pub quick_saturation_peers : ℕ
quick_saturation_peers = 4

abbrev pub saturation_peers : ℕ
saturation_peers = 8

-- The function of the first loop, on shallowestUnsaturated and binCount.
abbrev pub count_bin : Address → ℕ → ℕ × ℕ → Answer × (ℕ × ℕ)
count_bin peer bin (shallowest, count) =
    if bin == shallowest
    then (go_on, (shallowest, count + 1))
    else if ltb shallowest bin && ltb count quick_saturation_peers
    then (stop, (shallowest, count))
    else (go_on, (bin, 1))

-- shallowestUnsaturated, at most the shallowest empty bin.
abbrev pub at_most_empty : ℕ → Option ℕ → ℕ
at_most_empty shallowest none = shallowest
at_most_empty shallowest (some empty) = if ltb empty shallowest then empty else shallowest

abbrev pub shallowest_unsaturated : PSlice → ℕ
shallowest_unsaturated peers =
    at_most_empty (each_bin_rev count_bin peers (0, 0)).1.0 (shallowest_empty peers)

-- The function of the second loop, on peersCtr and candidate.
abbrev pub count_peer : Address → ℕ → ℕ × ℕ → Answer × (ℕ × ℕ)
count_peer peer po (counter, candidate) =
    if leb nn_low_watermark (counter + 1)
    then (stop, (counter + 1, po))
    else (go_on, (counter + 1, candidate))

abbrev pub candidate_depth : PSlice → ℕ
candidate_depth peers = (each_bin count_peer peers (0, 0)).1.1

abbrev pub at_most_radius : ℕ → ℕ → ℕ
at_most_radius radius depth = if ltb radius depth then radius else depth

unfoldable pub recalc_depth : PSlice → ℕ → ℕ
recalc_depth peers radius =
    let shallowest = shallowest_unsaturated peers in
    let candidate = candidate_depth peers in
    if leb (size peers) nn_low_watermark
    then 0
    else if ltb candidate shallowest
    then at_most_radius radius candidate
    else at_most_radius radius shallowest

abbrev pub count_at : ℕ → Address → ℕ → ℕ → Answer × ℕ
count_at bin peer po n = if po == bin then (go_on, n + 1) else (go_on, n)

-- binSaturated: whether the bin is saturated, and oversaturated.
abbrev pub bin_saturated : ℕ → ℕ → PSlice → PSlice → Bool × Bool
bin_saturated oversaturation bin peers connected =
    let n = (each_bin (count_at bin) connected 0).1 in
    if leb (recalc_depth peers max_po) bin
    then (false, false)
    else (leb saturation_peers n, leb oversaturation n)

-- IsWithinDepth
abbrev pub is_within_depth : Address → ℕ → Address → Bool
is_within_depth base depth addr = leb depth (proximity base addr)
