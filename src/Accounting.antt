-- ===== src/Accounting.antt =====
-- Per-peer accounting (pkg/accounting/accounting.go): what a peer owes us and we owe it, reserved
-- amounts, settlements, and disconnection of peers that are too far in debt.
pub mod State
pub mod Blocking
pub mod Spending
pub mod Debiting
pub mod Notices
pub mod Frames
pub mod Settling
pub mod Reserving
pub mod Bookkeeping
pub mod Payments
pub mod Actions
pub mod Peers
pub mod Shadow
mod Tests
