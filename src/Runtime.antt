-- ===== src/Runtime.antt =====
-- runtime/executor.py: one run of an agent, from its first event to its last.
pub mod Executor
mod Tests
