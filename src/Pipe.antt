-- ===== src/Pipe.antt =====
-- pipe.c: a pipe is a ring of 512 bytes under two 32-bit counters that never go back.
mod Defs
pub mod Fifo
pub use Defs.*
