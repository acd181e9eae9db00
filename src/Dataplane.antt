-- ===== src/Dataplane.antt =====
-- The data plane between a worker and the agent's file server (crates/dataplane).
pub mod Wire
pub mod AsyncIo
pub mod Payload
pub mod Ops
