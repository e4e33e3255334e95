-- ===== src/Ssh.antt =====
-- src/sql/known_hosts.rs: which server keys an SSH tunnel accepts.
pub mod Splitting
pub mod Pattern
pub mod KnownHosts
pub mod Tunnel
mod Tests
