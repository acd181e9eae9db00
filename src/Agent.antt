-- ===== src/Agent.antt =====
-- The agent (crates/agent): the table of workers and the scheduler over it.
pub mod Workers
pub mod Scheduler
pub mod Tracker
pub mod Submission
pub mod Dispatch
pub mod Drive
pub mod EnvFilter
