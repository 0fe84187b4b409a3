-- ===== src/Log.antt =====
-- log.c: the write-ahead log of the file system.
mod Defs
pub mod Copy
pub mod Recover
pub mod Crash
pub mod Atomic
pub mod Space
unfoldable pub use Defs.*
