-- ===== src/Sql.antt =====
-- src/sql: how a statement is run.
pub mod Transaction
pub mod Pool
mod Tests
