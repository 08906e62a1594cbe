-- ===== src/Audit.antt =====
-- The audit trail of audit/: events, redaction, and stores that chain the events by hashes.
pub mod Event
pub mod Memory
pub mod Sqlite
pub mod Lines
pub mod Chain
pub mod Tamper
pub mod Redact
mod Tests
