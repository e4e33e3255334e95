-- ===== src/Audit.antt =====
-- src/audit: the tamper-evident chain of the audit log.
pub mod Chain
mod Tests
