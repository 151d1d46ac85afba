-- ===== src/Pseudosettle.antt =====
-- Time-based settlement (pkg/settlement/pseudosettle/pseudosettle.go): Pseudosettle.State has the
-- two ends of a payment, Receiving, Paying and Granting what each of them
-- grants, and Limits the sums over requests.
pub mod State
pub mod Receiving
pub mod Paying
pub mod Granting
pub mod Limits
mod Tests
