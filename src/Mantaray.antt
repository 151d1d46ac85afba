-- ===== src/Mantaray.antt =====
-- The trie of manifests (pkg/manifest/mantaray): Mantaray.Paths has the byte strings, Mantaray.Node the
-- nodes and the reads, Mantaray.Changes Add and Remove; the other modules what these do to the entries.
pub mod Paths
pub mod Node
pub mod Changes
pub mod Entries
pub mod Adding
pub mod NewForks
pub mod Splitting
pub mod Added
pub mod Removing
pub mod Prefixes
pub mod Reading
mod Tests
