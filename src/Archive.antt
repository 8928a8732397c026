-- ===== src/Archive.antt =====
-- api/internal/httpapi/archive.go: the archive's upload sessions, and the archived item with its receipt.
mod Tests
pub mod Types
pub mod Bytes
pub mod Upload
pub mod Finalize
pub mod Complete
