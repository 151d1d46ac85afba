-- ===== src/Reserve.antt =====
-- The reserve of the batch store (pkg/postage/batchstore/reserve.go): Reserve.State has its limits
-- and tiers, Reserve.Tiers and Reserve.Sizes what they mean, Reserve.Items the encoded entries of
-- the unreserve queue.
pub mod State
pub mod Tiers
pub mod Sizes
pub mod Items
mod Tests
