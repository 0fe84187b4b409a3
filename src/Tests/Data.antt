-- ===== src/Tests/Data.antt =====
-- A small kernel: a process with two threads, in slots 0, 1 and 2, and two free pages.
use mutex.Common.{ℕ, refl, true, false, none, some, [], ◌∷◌, update, minus_one, arith}
use mutex.Spinlock.{Spinlock, Cpu}
use mutex.Kalloc.{Kmem}
use mutex.Kalloc.Stack.{Holds}
use mutex.Proc.{
  ProcState, unused, sleeping, running, runnable, null, of_pid, Mutex, Condvar, Proc, Kernel,
}

abbrev pub free_lock : Spinlock
free_lock = record { locked = 0; name = 0; cpu = none; pcs = []; id = minus_one }

abbrev pub no_mutex : Mutex
no_mutex = record { lock = free_lock; lockingthread = minus_one }

-- Mutex 1, not locked.
abbrev pub first_mutex : Mutex
first_mutex = record { lock = record free_lock { id = 1 }; lockingthread = 0 }

abbrev pub no_condvar : Condvar
no_condvar = record { id = minus_one; waitingthreadlist = λ _. 0 }

abbrev pub blank : Proc
blank = record {
  sz = 0;
  pgdir = 0;
  kstack = 0;
  state = unused;
  pid = 0;
  parent = none;
  tf_addr = 0;
  tf = record { eip = 0; esp = 0; eax = 0; others = 0 };
  return_addr = 0;
  context_addr = 0;
  context = record { edi = 0; esi = 0; ebx = 0; ebp = 0; eip = 0 };
  chan = null;
  killed = 0;
  ofile = λ _. 0;
  cwd = 0;
  name = λ _. 0;
  ctflag = 0;
  type = 0;
  wrapper = 0;
  ustack = 0;
  tcount = 0;
  mutexlist = λ _. no_mutex;
  condvarlist = λ _. no_condvar;
  threadattr = 0;
  threadretval = 0;
}

-- The process, which owns mutex 1 and condition variable 1.
abbrev pub owner : Proc
owner = record blank {
  state = runnable;
  pid = 1;
  tcount = 2;
  kstack = 0x8050_0000;
  mutexlist = update (λ _. no_mutex) 0 first_mutex;
  condvarlist = update (λ _. no_condvar) 0 (record { id = 1; waitingthreadlist = λ _. 0 });
}

abbrev pub thread : ℕ → ProcState → Proc
thread pid s = record blank {
  state = s;
  pid = pid;
  parent = some 0;
  type = 1;
  kstack = 0x8060_0000;
  threadretval = 7;
}

-- Two free pages, the one at 0x80401000 on top.
abbrev pub two_pages : Kmem
two_pages = record {
  use_lock = true;
  freelist = 0x8040_1000;
  memory = update (λ _. 0) 0x8040_1000 0x8040_0000;
}

pub two_pages-Holds : Holds two_pages (0x8040_1000 ∷ 0x8040_0000 ∷ [])
two_pages-Holds = record {
  chain = (refl, (refl, refl));
  pages = (refl, (λ e. omega arith), ((λ e. omega arith), tt), (refl, (λ e. omega arith), tt, tt));
}

abbrev pub kernel_with : Proc → Proc → Proc → Kernel
kernel_with p q r = record {
  table = update (update (update (λ _. blank) 0 p) 1 q) 2 r;
  nextpid = 4;
  initproc = 0;
  kmem = two_pages;
}

abbrev pub kernel : Kernel
kernel = kernel_with owner (thread 2 running) (thread 3 runnable)

-- Thread 2 has the mutex, thread 3 sleeps on the condition variable, in slot 0.
abbrev pub waiting_kernel : Kernel
waiting_kernel =
    kernel_with
      (record owner {
        condvarlist =
            update (λ _. no_condvar) 0 (record { id = 1; waitingthreadlist = update (λ _. 0) 0 3 });
      })
      (thread 2 running) (record (thread 3 sleeping) { chan = of_pid 3 })

abbrev pub kernel_end : ℕ
kernel_end = 0x8010_0000

-- A CPU with interrupts on that holds no lock, and the word memory of a call stack of no frames.
abbrev pub cpu_at : ℕ → Cpu
cpu_at i = record { index = i; ncli = 0; intena = false; interrupts = true }

abbrev pub no_frames : ℕ → ℕ
no_frames _ = 0
