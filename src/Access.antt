-- ===== src/Access.antt =====
-- crates/zincha-primitives/src/primitives/tool.rs: the access token that pays for a call of a tool,
-- its receipt, and the verifier that a tool runs before it serves a request.
pub mod Token
pub mod Chain
pub mod Replay
pub mod Verifier
mod Tests
