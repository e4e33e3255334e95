-- ===== src/Ddl.antt =====
-- src/sql/ddl.rs and the plan of a DDL statement in src/sql/mysql.rs.
pub mod Rewrite
pub mod Preflight
pub mod Chain
pub mod Renames
pub mod Stale
pub mod Plan
mod Tests
