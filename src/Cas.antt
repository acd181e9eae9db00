-- ===== src/Cas.antt =====
-- The content-addressed store (crates/cas): digests, and the results that the action cache keeps.
pub mod Digest
pub mod ActionResult
pub mod Fingerprint
pub mod Listed
