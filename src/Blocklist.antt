-- ===== src/Blocklist.antt =====
-- The blocklist of the libp2p service (pkg/p2p/libp2p/internal/blocklist/blocklist.go):
-- Blocklist.State has its operations on one peer, Blocklist.Lasting how long a peer stays blocked.
pub mod State
pub mod Lasting
mod Tests
