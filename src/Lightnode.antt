-- ===== src/Lightnode.antt =====
-- The light nodes that are connected (pkg/topology/lightnode/container.go), a client of PeerSlice:
-- Lightnode.State has the container, Slice its slices of one bin, Places and Tracking the
-- container after a sequence of reports, and Picking the peers that RandomPeer answers.
pub mod State
pub mod Slice
pub mod Places
pub mod Tracking
pub mod Picking
mod Tests
