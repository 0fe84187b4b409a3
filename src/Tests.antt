-- ===== src/Tests.antt =====
-- Concrete states of the kernel, and the theorems applied to them.
mod Data
mod Locks
mod Races
mod Processes
mod Condvars
mod Storage
mod Calls
mod Files
mod FileSystem
mod Paging
mod Arguments
mod Buffers
mod Shells
mod Consoles
mod OpenFiles
