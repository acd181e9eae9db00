-- ===== src/Proto.antt =====
-- What the agent and the workers share (crates/proto): the cluster token and action capabilities.
pub mod Auth
pub mod Capability
