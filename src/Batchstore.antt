-- ===== src/Batchstore.antt =====
-- The store of postage batches (pkg/postage/batchstore), a client of Reserve: State has the store and its
-- operations on a batch, Chain those with the chain state and the answers of Unreserve, Taking to Ending
-- the passes of evictOuter, Index to Kept what Put leaves, Below to Expired the eviction of spent batches.
pub mod State
pub mod Chain
pub mod Outer
pub mod Taking
pub mod Passing
pub mod Sound
pub mod Ending
pub mod Index
pub mod Putting
pub mod AtRest
pub mod Changing
pub mod Kept
pub mod Saved
pub mod Below
pub mod Spending
pub mod Expired
pub mod Chained
pub mod Serving
mod Tests
