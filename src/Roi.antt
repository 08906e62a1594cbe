-- ===== src/Roi.antt =====
-- roi/ledger.py: the ledger of the value that agents bring and of what they cost.
pub mod Types
pub mod Ledger
pub mod Summary
pub mod Lifecycle
pub mod Evidence
pub mod Page
mod Tests
