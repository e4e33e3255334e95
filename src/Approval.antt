-- ===== src/Approval.antt =====
-- src/approval and src/mcp/mrtr.rs: who said yes to what, and for how long.
pub mod Canonical
pub mod Engine
pub mod Mrtr
mod Tests
