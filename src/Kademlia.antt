-- ===== src/Kademlia.antt =====
-- The topology (pkg/topology/kademlia/kademlia.go), a client of PeerSlice: Kademlia.State has the depth
-- and the saturation of bins, Kademlia.Closest the search for the nearest peer, Kademlia.Depth and
-- Kademlia.Nearest what they give.
pub mod State
pub mod Closest
pub mod Filled
pub mod Depth
pub mod Nearest
mod Tests
