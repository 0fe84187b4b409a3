-- ===== src/Proc/Life.antt =====
-- allocproc, cleanupzombiethreads, wait, the end of exit, and getthreadretval of proc.c: how a
-- slot of the process table is taken, waited for and given back.
mod Defs
pub mod Alloc
pub mod Wait
pub mod Exit
pub mod Fork
unfoldable pub use Defs.*
