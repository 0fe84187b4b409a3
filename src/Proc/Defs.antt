-- ===== src/Proc/Defs.antt =====
-- proc.h and the process table of proc.c, ptable. A process is its index in `ptable.proc`; the current
-- process `proc` is an argument. An `int` or `uint` is its 32-bit pattern, so -1 is `minus_one`.
-- Between `acquire(&ptable.lock)` and `release(&ptable.lock)` the code is one atomic function.
use mutex.Common.{ℕ, Bool, true, false, Option, ◌==◌, update}
use mutex.Spinlock.{Spinlock}
use mutex.Kalloc.{Kmem}

-- param.h
abbrev pub nproc : ℕ
nproc = 64

abbrev pub maxthrds : ℕ
maxthrds = 32

abbrev pub nmutx : ℕ
nmutx = 64

abbrev pub ncondvar : ℕ
ncondvar = 64

abbrev pub nofile : ℕ
nofile = 16

pub data ProcState : Type 0 where
  unused embryo sleeping runnable running zombie : ProcState

abbrev pub is_sleeping : ProcState → Bool
is_sleeping sleeping = true
is_sleeping _ = false

abbrev pub is_runnable : ProcState → Bool
is_runnable runnable = true
is_runnable _ = false

abbrev pub is_running : ProcState → Bool
is_running running = true
is_running _ = false

abbrev pub is_unused : ProcState → Bool
is_unused unused = true
is_unused _ = false

abbrev pub is_zombie : ProcState → Bool
is_zombie zombie = true
is_zombie _ = false

-- What `chan` points to: nothing, a process (`wait`), the number of a thread cast to a pointer
-- (`condvar_wait`), or another kernel object. Kernel objects lie above any process number.
pub data Chan : Type 0 where
  null : Chan
  of_proc of_pid of_object : ℕ → Chan

abbrev pub same_chan : Chan → Chan → Bool
same_chan null null = true
same_chan (of_proc i) (of_proc j) = i == j
same_chan (of_pid i) (of_pid j) = i == j
same_chan (of_object i) (of_object j) = i == j
same_chan _ _ = false

pub record Mutex : Type 0 where
  pub lock : Spinlock
  pub lockingthread : ℕ

pub record Condvar : Type 0 where
  pub id : ℕ
  pub waitingthreadlist : ℕ → ℕ

-- The registers of the trap frame that `fork` sets; `others` stands for the rest, copied whole.
pub record TrapFrame : Type 0 where
  pub eip : ℕ
  pub esp : ℕ
  pub eax : ℕ
  pub others : ℕ

pub record Context : Type 0 where
  pub edi : ℕ
  pub esi : ℕ
  pub ebx : ℕ
  pub ebp : ℕ
  pub eip : ℕ

-- `struct proc`. Pointers into the page directory, the files and the directories are numbers, 0
-- for null; `parent` is an index, `none` for null. `tf_addr`, `return_addr` and `context_addr`
-- are where `allocproc` puts the trap frame, the return address `trapret` and the context.
pub record Proc : Type 0 where
  pub sz : ℕ
  pub pgdir : ℕ
  pub kstack : ℕ
  pub state : ProcState
  pub pid : ℕ
  pub parent : Option ℕ
  pub tf_addr : ℕ
  pub tf : TrapFrame
  pub return_addr : ℕ
  pub context_addr : ℕ
  pub context : Context
  pub chan : Chan
  pub killed : ℕ
  pub ofile : ℕ → ℕ
  pub cwd : ℕ
  pub name : ℕ → ℕ
  pub ctflag : ℕ
  pub type : ℕ
  pub wrapper : ℕ
  pub ustack : ℕ
  pub tcount : ℕ
  pub mutexlist : ℕ → Mutex
  pub condvarlist : ℕ → Condvar
  pub threadattr : ℕ
  pub threadretval : ℕ

pub record Kernel : Type 0 where
  pub table : ℕ → Proc
  pub nextpid : ℕ
  pub initproc : ℕ
  pub kmem : Kmem

abbrev pub set_proc : Kernel → ℕ → Proc → Kernel
set_proc k i p = record k { table = update k.table i p }

-- How a call ends: with a value and the new state; not yet, since it busy-waits and has changed
-- nothing; or by a panic or an access through a null pointer or past an array.
pub data Outcome : Type 0 where
  returns : ℕ → Kernel → Outcome
  spins : Outcome
  fault : Outcome
