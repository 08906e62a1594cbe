-- ===== src/Context.antt =====
-- runtime/context.py: `SentinelContext`, through which an agent reaches every tool.
pub mod Types
pub mod Counters
pub mod Resolve
pub mod Prepare
pub mod Execute
pub mod Call
pub mod Frame
pub mod Guards
pub mod Price
pub mod Limits
pub mod Reservation
mod Tests
