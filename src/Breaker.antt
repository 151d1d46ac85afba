-- ===== src/Breaker.antt =====
-- The breaker of the libp2p service (pkg/p2p/libp2p/internal/breaker/breaker.go): Breaker.State has
-- its operations, Breaker.Reach the states that concurrent calls reach, Breaker.Tripping what a
-- caller sees.
pub mod State
pub mod Reach
pub mod Tripping
mod Tests
