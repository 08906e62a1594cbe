-- ===== src/ControlPlane.antt =====
-- enterprise/control_plane.py: the store of policies, rollouts and agents, and the service over it.
pub mod Rows
pub mod Store
pub mod Agents
pub mod Service
pub mod Activation
pub mod Rollout
mod Tests
