-- ===== src/Tracer.antt =====
-- crates/tracer: the reader of the traces that the interceptor writes.
pub mod Model
pub mod Utf16
pub mod Format
pub mod Paths
pub mod Logical
pub mod Graph
pub mod Sha256
pub mod Manifest
