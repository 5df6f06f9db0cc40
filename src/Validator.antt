-- ===== src/Validator.antt =====
-- crates/zincha-primitives/src/primitives/validator.rs: what validators claim and contribute.
pub mod Services
pub mod Vrf
pub mod Evidence
mod Tests
