-- ===== src/Crypto.antt =====
-- crates/zincha-primitives/src/crypto.
pub mod Bytes
pub mod Hash
pub mod Merkle
pub mod Toy
mod Tests
