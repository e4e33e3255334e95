-- ===== src/Backup.antt =====
-- src/backup.
pub mod Journal
pub mod Json
pub mod Quoting
pub mod Values
pub mod Extractor
pub mod Capture
pub mod Restore
mod Tests
