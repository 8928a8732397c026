-- ===== src/Office.antt =====
-- api/internal/httpapi: the office workflow on its database, and what it queues for the ledger.
pub mod Tests
pub mod Types
pub mod Database
pub mod Events
pub mod Roles
pub mod Actions
pub mod Documents
pub mod Create
pub mod Decision
pub mod Auth
pub mod History
pub mod Ledger
pub mod Answers
