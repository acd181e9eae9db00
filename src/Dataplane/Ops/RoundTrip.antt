-- ===== src/Dataplane/Ops/RoundTrip.antt =====
-- Decoding inverts encoding, for the messages of crates/dataplane/src/ops.rs.
pub mod Queries
pub mod Session
pub mod Legacy
pub mod Metadata
pub mod Messages
