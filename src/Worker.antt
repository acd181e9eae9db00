-- ===== src/Worker.antt =====
-- crates/worker: what a worker reports of itself.
pub mod CpuMonitor
