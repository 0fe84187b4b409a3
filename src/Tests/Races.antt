-- ===== src/Tests/Races.antt =====
-- Runs of two CPUs on a spinlock, and of two threads on a mutex.
use mutex.Common.{ℕ, ◌≡◌, ◌≢◌, refl, true, false, none, some}
use mutex.Spinlock.{Spinlock, Cpu, acquire, release, test_and_set, pushcli, holding, getcallerpcs}
use mutex.Spinlock.Race.{
  Phase, outside, spinning, inside, Machine, moved, IsInitial, mutual_exclusion, no_panic,
}
use mutex.Mutex.Race.{
  Pc, idle, checking, past_check, critical, clearing, swapping, Threads, goes, fresh, owns,
  mutex_exclusion, deadlock, IsStuck,
}
use mutex.Spinlock.Race as Lock
use mutex.Mutex.Race as Mutual
use mutex.Tests.Data.{free_lock, cpu_at, no_frames}

-- Two CPUs: CPU 1 gets the lock, CPU 2 spins.
abbrev machine : Machine
machine = record { lock = free_lock; cpus = cpu_at; phase = λ _. outside }

machine-IsInitial : IsInitial machine
machine-IsInitial = record { numbered = λ i. refl; free = refl; all_outside = λ i. refl }

abbrev held_lock : Spinlock
held_lock = record free_lock { locked = 1; cpu = some 1; pcs = getcallerpcs no_frames 0 }

abbrev nested : ℕ → Cpu
nested i = record { index = i; ncli = 1; intena = true; interrupts = false }

abbrev one_in : Machine
one_in = moved machine 1 inside (nested 1) held_lock

abbrev two_contend : Machine
two_contend = moved one_in 2 spinning (nested 2) held_lock

contention : Lock.Reach no_frames machine two_contend
unfolding acquire pushcli holding test_and_set getcallerpcs
contention =
    Lock.later (Lock.later Lock.start (Lock.enters 1 0 (nested 1) held_lock refl refl refl))
      (Lock.waits 2 0 (nested 2) held_lock refl refl refl)

mutual_exclusion_example : (◌≡◌ {A = ℕ} 1 1) × ((two_contend.cpus 1).interrupts ≡ false)
mutual_exclusion_example = mutual_exclusion machine-IsInitial contention 1 1 refl refl

no_panic_example : release (nested 1) held_lock ≢ none
no_panic_example = (no_panic machine-IsInitial contention 1 0).0 refl

-- Two threads: thread 1 has mutex 5, thread 2 has seen it free.
abbrev both_check : Threads
both_check = goes (goes fresh 1 checking) 2 checking

abbrev both_past : Threads
both_past = goes (goes both_check 1 past_check) 2 past_check

abbrev one_swaps : Threads
one_swaps = record (goes both_past 1 swapping) { table_lock = some 1 }

abbrev one_records : Threads
one_records = record (goes one_swaps 1 Mutual.recording) { locked = 1 }

abbrev one_owns : Threads
one_owns = record (goes one_records 1 critical) { lockingthread = 5; table_lock = none }

race : Mutual.Reach 5 fresh one_owns
race =
    Mutual.later
      (Mutual.later
        (Mutual.later
          (Mutual.later
            (Mutual.later
              (Mutual.later (Mutual.later Mutual.start (Mutual.calls_lock 1 refl refl))
                (Mutual.calls_lock 2 refl refl))
              (Mutual.sees_free 1 refl refl refl))
            (Mutual.sees_free 2 refl refl refl))
          (Mutual.takes_table 1 refl refl refl))
        (Mutual.swaps 1 refl refl refl))
      (Mutual.records 1 refl refl)

mutex_exclusion_example : (◌≡◌ {A = ℕ} 1 1) × (one_owns.locked ≡ 1)
mutex_exclusion_example = mutex_exclusion race 1 1 refl refl

deadlock_example :
    (d : Threads) × Mutual.Step 5 one_owns d
    × ((t : Threads)
        → Mutual.Reach 5 d t
        → IsStuck 2 t × (t.table_lock ≡ some 2) × ((k : ℕ) → t.pc k ≢ clearing))
deadlock_example = deadlock 2 1 race refl refl refl
