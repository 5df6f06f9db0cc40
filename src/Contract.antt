-- ===== src/Contract.antt =====
-- crates/zincha-primitives/src/primitives/contract.rs: the storage trie and its root, the event
-- archive and its accumulator, the token writes that a call tree stages, the record of a contract,
-- its address and its routes.
pub mod Nibbles
pub mod Events
pub mod Storage
pub mod Search
pub mod Record
pub mod Writes
pub mod Deployed
pub mod Route
mod Tests
