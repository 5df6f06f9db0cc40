-- ===== src/Agreement.antt =====
-- crates/zincha-primitives/src/primitives/agreement.rs.
pub mod Data
pub mod Milestones
pub mod Settlement
pub mod Payout
pub mod Effects
pub mod Create
pub mod Lifecycle
mod Tests
