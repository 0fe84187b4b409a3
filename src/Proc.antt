-- ===== src/Proc.antt =====
-- proc.h and proc.c. `Defs` is the process table, `Store` the access to a mutex in it, `Sched` the
-- sleeping, waking and scheduling of processes,
-- `Life` the taking and giving back of slots.
mod Defs
pub mod Store
pub mod Sched
pub mod Life
pub use Defs.*
