-- ===== src/Transaction.antt =====
-- crates/zincha-primitives/src/primitives/transaction.rs: the kinds of transactions, and the
-- transactions with their signatures and their validity windows.
pub mod Kind
pub mod Codes
pub mod Body
pub mod Signed
pub mod Window
mod Tests
