-- ===== src/Condvar.antt =====
-- condvar_init, condvar_destroy, condvar_wait, condvar_signal and condvar_broadcast of proc.c. A
-- condition variable is a table of 32 slots, a thread's number in a slot while it waits.
mod Defs
pub mod Store
pub mod Laws
pub mod Broadcast
pub mod Lost
unfoldable pub use Defs.*
