-- ===== src/Outbox.antt =====
-- enterprise/outbox.py: events that wait in a table until a worker has delivered them.
pub mod Store
pub mod Worker
pub mod Keys
pub mod Phases
pub mod Claims
pub mod Leases
pub mod Rounds
mod Tests
