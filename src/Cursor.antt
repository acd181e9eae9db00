-- ===== src/Cursor.antt =====
-- The bounds-checked cursors of the decoders: `wire::Reader` of crates/dataplane/src/wire.rs, and
-- the cursors of crates/proto/src/capability.rs and crates/cas/src/action_cache.rs, which differ
-- in their error types alone.
mod Defs
pub mod Reads
pub mod Accepts
pub mod Sliced
pub mod Cuts
pub use Defs.{Cursor}
unfoldable pub use Defs.{
  Parser, pure, fail, ◌>>=◌, guard, take_bytes, uint, repeat, finish, or_else, run,
}
