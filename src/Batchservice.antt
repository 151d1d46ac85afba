-- ===== src/Batchservice.antt =====
-- The service of batch events (pkg/postage/batchservice/batchservice.go), an updater of the syncer and a
-- client of the store of batches: Batchservice.State has its operations, Chain the chain state after a
-- page of events, Broken where a page fails, and Restart what New finds after a page that ended and after one that did not.
pub mod State
pub mod Chain
pub mod Dirty
pub mod Broken
pub mod Restart
mod Tests
