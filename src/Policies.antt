-- ===== src/Policies.antt =====
-- The documents of policies: policies/validate.py and policies/loader.py.
pub mod Value
pub mod Validate
pub mod Sections
pub mod Loader
mod Tests
