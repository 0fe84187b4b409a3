-- ===== src/Tests/Processes.antt =====
-- The process table, the scheduler, and the ends of processes and threads.
use mutex.Common.{ℕ, ◌≡◌, refl, true, false, not, ◌&&◌, some, Option, ◌==◌, arith, IsFirst}
use mutex.Spinlock.{Spinlock, Cpu, acquire, taken, pushcli, holding, test_and_set, getcallerpcs}
use mutex.Kalloc.{Kmem, kfree}
use mutex.Proc.{sleeping, running, runnable, zombie, is_zombie, of_proc, Kernel, nproc}
use mutex.Proc.Sched.{yield_begin}
use mutex.Proc.Sched.Laws.{KeepsRunnable}
use mutex.Proc.Life.{allocproc, wait, reap, exit_finish}
use mutex.Proc.Life.Alloc.{UniquePids, allocproc-UniquePids}
use mutex.Proc.Life.Exit.{wait-exit_finish}
use mutex.Tests.Data.{
  owner, thread, blank, kernel_with, kernel, two_pages, kernel_end, free_lock, cpu_at, no_frames,
}

abbrev held_lock : Spinlock
held_lock = record free_lock { locked = 1; cpu = some 1; pcs = getcallerpcs no_frames 0 }

abbrev holder : Cpu
holder = record { index = 1; ncli = 1; intena = true; interrupts = false }

acquires : acquire no_frames 0 (cpu_at 1) free_lock ≡ taken holder held_lock
unfolding acquire pushcli holding test_and_set getcallerpcs
acquires = refl

-- A process that only ever yields.
abbrev yields_at_once : ℕ → Kernel → Kernel
yields_at_once i k = yield_begin k i

yields_at_once-KeepsRunnable : KeepsRunnable yields_at_once
yields_at_once-KeepsRunnable = record { keeps = λ i j k ne r. unfold yield_begin in ground arith }

kernel-UniquePids : UniquePids kernel
kernel-UniquePids = record {
  below = λ i lt u. ground arith;
  unique = λ i j a b u w e. ground arith;
  next_pos = omega arith;
  next_int = omega arith;
}

allocproc-UniquePids_example : UniquePids (allocproc 500 600 kernel).1
allocproc-UniquePids_example = allocproc-UniquePids 500 600 kernel kernel-UniquePids (omega arith)

-- `freevm` of a process without pages.
abbrev no_pages : Kmem → ℕ → Option Kmem
no_pages m pgdir = some m

-- Slot 1 is a child process of slot 0 that has ended, slot 2 a thread that has.
abbrev ended_kernel : Kernel
ended_kernel = kernel_with owner (record (thread 2 zombie) { type = 0 }) (thread 3 zombie)

-- The allocator with the stack of a thread given back.
frees : (m : Kmem) × (kfree kernel_end two_pages 0x8060_0000 ≡ some m)
unfolding kfree
frees = (_, refl)

thread_found :
    IsFirst
      (λ j.
        not ((ended_kernel.table j).type == 0)
        && (ended_kernel.table j).pid == (ended_kernel.table 2).pid)
      nproc
      2
thread_found = record { below = omega arith; passes = refl; earlier_fail = λ j lt. ground arith }

-- The process sleeps in `wait` while its child in slot 1 runs.
abbrev parent_sleeps : Kernel
parent_sleeps =
    kernel_with (record owner { state = sleeping; chan = of_proc 0 })
      (record (thread 2 running) { type = 0 }) blank

wait-exit_finish_example :
    let k' = exit_finish parent_sleeps 1 in
    ((k'.table 0).state ≡ runnable)
    × ((k'.table 1).state ≡ zombie)
    × (i : ℕ) × (is_zombie (k'.table i).state ≡ true)
    × (wait kernel_end no_pages k' 0 0 ≡ reap kernel_end no_pages k' i)
wait-exit_finish_example =
    wait-exit_finish kernel_end no_pages parent_sleeps 1 0 refl (λ e. omega arith) (omega arith)
      (omega arith) refl refl refl
