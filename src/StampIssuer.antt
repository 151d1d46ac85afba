-- ===== src/StampIssuer.antt =====
-- The issuer of postage stamps (pkg/postage/stampissuer.go): StampIssuer.State has its operations,
-- StampIssuer.Index the encoding of an index, StampIssuer.Counting what the counts mean.
pub mod Index
pub mod State
pub mod Buckets
pub mod Counting
mod Tests
