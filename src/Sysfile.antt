-- ===== src/Sysfile.antt =====
-- sysfile.c: the system calls on files. `Descriptors` are the calls on open files, `Paths` those on
-- names, `Open` what opens files and starts programs.
pub mod Run
pub mod Descriptors
pub mod Dup
pub mod Fresh
pub mod Paths
pub mod Open
pub mod Empty
pub mod Exec
