-- ===== src/Control.antt =====
-- control/: the execution limits, and the decisions about an output.
pub mod Guardrails
pub mod Decision
