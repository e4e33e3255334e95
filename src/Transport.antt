-- ===== src/Transport.antt =====
-- src/mcp/limits.rs: what bounds the input of the transport.
pub mod Lines
mod Tests
