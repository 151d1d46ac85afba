-- ===== src/Localstore.antt =====
-- The local store of chunks (pkg/localstore): Localstore.Keys has the keys of the index of garbage
-- collection, Localstore.State the indexes and what a batch writes, Put, Set and Collect the
-- operations, and the other modules what they keep.
pub mod Keys
pub mod State
pub mod Set
pub mod Chunks
pub mod Put
pub mod Collect
pub mod Writes
pub mod Counts
pub mod Shrinking
pub mod Placing
pub mod Balance
pub mod Collected
pub mod Garbage
pub mod Erasing
pub mod Others
pub mod Meanwhile
pub mod Kept
pub mod Storing
pub mod Again
pub mod Replacing
pub mod Get
pub mod Worker
mod Tests
