-- ===== src/PeerSlice.antt =====
-- Overlay addresses in bins: proximity (pkg/swarm/proximity.go, pkg/swarm/distance.go) and PSlice
-- (pkg/topology/pslice/pslice.go). PeerSlice.State has the operations, PeerSlice.Bins the bins as a
-- list of lists, and Adding, Removing and Reading how the operations act on them.
pub mod Distance
pub mod State
pub mod Bins
pub mod Adding
pub mod Erasing
pub mod Removing
pub mod Proximity
pub mod Nearness
pub mod Reading
pub mod Steps
pub mod Visiting
pub mod Ascending
mod Tests
