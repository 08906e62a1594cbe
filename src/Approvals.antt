-- ===== src/Approvals.antt =====
-- approvals/base.py: requests for approval, their decisions and the grants that follow.
pub mod Broker
