-- ===== src/Dataplane/Ops.antt =====
-- crates/dataplane/src/ops.rs: the payload of each operation, one module for an operation. Paths,
-- digests and details are strings, given as their UTF-8 bytes.
pub mod Metadata
pub mod Stat
pub mod OpenRead
pub mod Read
pub mod DirList
pub mod WriteBack
pub mod Has
pub mod Hello
pub mod RoundTrip
pub mod Canonical
