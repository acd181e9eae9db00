-- ===== src/Tests.antt =====
-- Concrete inputs: each theorem that has conditions is applied to one.
mod Inputs
mod Frames
mod Queries
mod Session
mod Store
mod Signed
mod Cluster
mod Load
mod Tracker
mod Traces
mod Dispatches
mod Environment
mod Paths
mod Observed
mod Digests
mod Submissions
