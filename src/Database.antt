-- ===== src/Database.antt =====
-- db/core.py: the scripts of migrations and their bookkeeping.
pub mod Split
pub mod Migrate
mod Tests
