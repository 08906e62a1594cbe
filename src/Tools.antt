-- ===== src/Tools.antt =====
-- runtime/tools.py: approval grants, tool specifications and the registry of tools.
pub mod Grant
pub mod Spec
pub mod Registry
mod Tests
