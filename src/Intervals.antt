-- ===== src/Intervals.antt =====
-- The intervals of a stream that a node has synchronised (pkg/intervalstore/intervals.go).
pub mod Store
pub mod Splice
pub mod Merging
pub mod Adding
pub mod Gaps
mod Tests
