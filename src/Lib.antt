-- ===== src/Lib.antt =====
-- The kernel of mutex-lock/, a Unix-like teaching kernel with kernel threads, mutexes and condition
-- variables: models of its parts and the theorems about them.
--
-- How the parts interact: a spinlock guards each shared structure, the chief of them the process
-- table. Processes and threads are slots of that table; a thread is a slot whose `type` is 1 and
-- whose parent owns the mutexes and the condition variables. Sleeping, waking and scheduling change
-- `state` and `chan` of the slots. Slots, pipes and page tables take their pages from the
-- allocator. Pipes wake through the process table. The log stands on the block store below it, and
-- the file system on the log: every change of a block goes through log_write.
--
--   Common      numbers, Boolean tests, lists, and families: a function that stands for an array,
--               `update`, and the first index that passes a test (loops over a table).
--   Spinlock    mutex-lock/spinlock.c, spinlock.h. `Laws` one CPU, `Race` any number of CPUs.
--   Kalloc      mutex-lock/kalloc.c. `Stack`: the free list as a stack of pages.
--   Cstring     mutex-lock/string.c. `Blocks`: memset, memmove, memcmp.
--   Proc        mutex-lock/proc.h and proc.c. `Defs` the process table; `Sched` wakeup, kill, sleep,
--               yield, sched, scheduler; `Life` allocproc, fork, growproc, wait, exit,
--               cleanupzombiethreads, getthreadretval.
--   Mutex       mutex_init, mutex_destroy, mutex_lock, mutex_unlock of proc.c. `Laws` one call after
--               the other, `Race` threads that interleave.
--   Condvar     condvar_init, condvar_destroy, condvar_wait, condvar_signal, condvar_broadcast of
--               proc.c. `Lost` the signal that comes between the two parts of a wait.
--   Pipe        mutex-lock/pipe.c. `Fifo`: the ring of bytes as a queue.
--   Log         mutex-lock/log.c over bread and bwrite of bio.c. `Atomic` commits and crashes,
--               `Space` the reservation of log blocks.
--   Bio         mutex-lock/bio.c: the list of buffers. `Lists` searches, `Laws` bget,
--               `Release` brelse and bwrite.
--   Fs          mutex-lock/fs.c, fs.h, stat.h and struct inode of file.h. `Bytes` the bytes and bits of a
--               block; `Disk` blocks read and changed through bio.c and the log; `Balloc` the
--               bitmap; `Inode` the inode cache, ilock, iupdate, itrunc and bmap; `Content` readi
--               and writei; `Path` skipelem; `Dir` dirlookup and dirlink; `Namex` namex.
--   Vm          mutex-lock/vm.c: page tables in the memory of the allocator. `Bits` the operator `|`, `Laws`
--               walkpgdir, `Map` mappages and uva2ka, `User` deallocuvm, allocuvm and freevm.
--   Syscall     mutex-lock/syscall.c: the arguments of system calls, and the dispatch.
--   Sysfile     mutex-lock/sysfile.c, and pipealloc and filestat. `Run` transactions, `Descriptors`
--               and `Paths` and `Open` the calls; `Dup` and `Fresh` which descriptors and files
--               they take, `Empty` isdirempty, `Exec` the arguments of exec.
--   Sysproc     mutex-lock/sysproc.c: the system calls on processes and threads.
--   File        mutex-lock/file.c: open files and their reference counts.
--   Shell       the parser of mutex-lock/sh.c. `Lexer` gettoken and peek, `Parser` parsecmd to
--               parseexec, `Grammar` lines, their text and their trees; `Tokens`, `Words`,
--               `Texts`, `Steps`, `Depth` and `Complete` parse printed lines, `Shorter` and
--               `Total` any text.
--   Console     mutex-lock/console.c. `Screen` cgaputc, `Input` consoleintr and consoleread,
--               `Print` printint and cprintf, `Digits` printed numbers read by atoi,
--               `Ring` the ring as two lists, `Editing` the line editor, `Reads` what is read.
--   Ulib        atoi of mutex-lock/ulib.c.
--   Grep        the matcher of mutex-lock/grep.c. `Meaning`: what an expression means.
--   Tests       concrete states and the theorems applied to them.
--
-- Representation. An `int` or `uint` is its 32-bit pattern with wrap-around written out, so -1 is
-- 0xffffffff; a table is a function on indices with its bound in the loops over it; a pointer into
-- a table is an index, and a null pointer is `none` or 0. What runs between acquire and release of
-- one lock is one atomic function; a function that sleeps is cut at the switch. A busy-waiting loop
-- is an outcome or a step, never fuel. The loop of freerange has fuel, which is the number of pages
-- below the end of the range, and that of filewrite has the number of bytes, since each round
-- writes at least one; the theorems about them show that it suffices. The loops of readi and writei
-- have the number of bytes to go, that of namex the length of the path and one, those of dirlookup
-- and dirlink the size of the directory, those of deallocuvm and allocuvm the pages of the larger
-- size and one, that of copyout the number of bytes, that of isdirempty the size of the directory,
-- kill_line the places of the ring; the parser of the shell has four times the length of the text
-- and four, its loops the length of the text and one; the theorems about readi, writei, namex,
-- dirlookup, dirlink, allocuvm, isdirempty, consoleintr and parsecmd show that these suffice. All
-- other loops run over a table, a string or a count. A crash of the machine is a number of block
-- writes after which no write reaches the disk.
--
-- Parameters: for fork and growproc copyuvm, freevm, allocuvm and deallocuvm, as any functions; the
-- linker symbol `end`, the addresses of forkret and trapret, the word memory that the call-stack
-- walk reads, what a scheduled process does until it switches back; for fork and file.c idup, readi
-- and writei, as any functions; the devices of `devsw`; for Sysproc argint; for Sysfile what the
-- reads and writes of pipes and inodes answer, and exec; the table `syscalls`; and, for fork and
-- file.c, what the functions of the neighbouring file do.
--
-- Not modelled: device drivers, boot code and assembly (hardware access); the wakeups of iunlock,
-- iput and brelse, which change no inode and no buffer, and the locking of buffers in Fs; of vm.c
-- setupkvm, copyuvm, inituvm, loaduvm and the segment registers; the loading of a program by exec, and traps; of the shell what
-- runs a command, the rest of the user library and the other user programs; the inode that a read of the console gives up while
-- it waits; the memory order of the hardware, which is taken as sequentially consistent; procdump
-- and other output.
pub mod Common
pub mod Spinlock
pub mod Kalloc
pub mod Cstring
pub mod Proc
pub mod Mutex
pub mod Condvar
pub mod Pipe
pub mod Log
pub mod Bio
pub mod Console
pub mod File
pub mod Fs
pub mod Grep
pub mod Shell
pub mod Syscall
pub mod Sysfile
pub mod Sysproc
pub mod Ulib
pub mod Vm
pub mod Tests
