-- ===== src/Syncer.antt =====
-- The syncer of contract events (pkg/syncer/syncer.go): Syncer.State has the pages of blocks and how an
-- updater gets their events, and Syncer.Catching the rounds of the worker.
pub mod State
pub mod Catching
mod Tests
