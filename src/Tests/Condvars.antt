-- ===== src/Tests/Condvars.antt =====
-- Condition variable 1 of a process with two threads.
use mutex.Common.{
  ℕ, ◌≡◌, ◌≢◌, ◌⊎◌, ◌<◌, refl, true, false, some, ◌==◌, if◌then◌else◌, minus_one, arith, IsFirst,
  first,
}
use mutex.Proc.{Kernel, sleeping, runnable, of_pid, returns, nproc, maxthrds}
use mutex.Proc.Store.{mutex_of}
use mutex.Proc.Sched.{modified_sleep_begin}
use mutex.Condvar.{
  slots_of, register, condvar_wait_begin, wake_slot, condvar_signal, condvar_broadcast, is_used,
  set_condvar,
}
use mutex.Condvar.Store.{SleepsOn}
use mutex.Condvar.Laws.{condvar_wait_lem, condvar_signal_lem}
use mutex.Condvar.Broadcast.{condvar_broadcast_lem}
use mutex.Condvar.Lost.{IsIdle, Calls, lost_wakeup}
use mutex.Tests.Data.{kernel, waiting_kernel}

condvar_wait_example :
    ((i : ℕ) × (k' : Kernel) × IsFirst (λ j. slots_of kernel 0 0 j == 0) maxthrds i
      × (condvar_wait_begin kernel 1 1 1 ≡ returns 0 k')
      × SleepsOn (k'.table 1) 2
      × ((mutex_of k' 0 0).lock.locked ≡ 0)
      × ((j : ℕ) → slots_of k' 0 0 j ≡ (if i == j then 2 else slots_of kernel 0 0 j)))
    ⊎ (((j : ℕ) → j < maxthrds → slots_of kernel 0 0 j ≢ 0)
        × (condvar_wait_begin kernel 1 1 1 ≡ returns minus_one kernel))
condvar_wait_example =
    condvar_wait_lem kernel 1 0 1 1 refl (omega arith) (omega arith) (omega arith) (omega arith)

condvar_signal_example :
    ((i : ℕ) × (k' : Kernel) × IsFirst (is_used waiting_kernel 0 0) maxthrds i
      × (condvar_signal waiting_kernel 1 1 ≡ returns 0 k')
      × ((j : ℕ) → slots_of k' 0 0 j ≡ (if i == j then 0 else slots_of waiting_kernel 0 0 j))
      × ((p : ℕ)
          → p < nproc
          → (SleepsOn (waiting_kernel.table p) (slots_of waiting_kernel 0 0 i)
              → (k'.table p).state ≡ runnable)
            × (((waiting_kernel.table p).chan ≢ of_pid (slots_of waiting_kernel 0 0 i))
                  ⊎ ((waiting_kernel.table p).state ≢ sleeping)
                → (k'.table p).state ≡ (waiting_kernel.table p).state)))
    ⊎ (((j : ℕ) → j < maxthrds → is_used waiting_kernel 0 0 j ≡ false)
        × (condvar_signal waiting_kernel 1 1 ≡ returns 0 waiting_kernel))
condvar_signal_example =
    condvar_signal_lem waiting_kernel 1 0 1 (λ e. omega arith) refl (omega arith) (omega arith)

condvar_broadcast_example :
    (k' : Kernel) × (condvar_broadcast waiting_kernel 1 1 ≡ returns 0 k')
    × ((j : ℕ)
        → j < maxthrds
        → slots_of k' 0 0 j
          ≡ (if is_used waiting_kernel 0 0 j then 0 else slots_of waiting_kernel 0 0 j))
    × ((j p : ℕ)
        → j < maxthrds
        → p < nproc
        → is_used waiting_kernel 0 0 j ≡ true
        → SleepsOn (waiting_kernel.table p) (slots_of waiting_kernel 0 0 j)
        → (k'.table p).state ≡ runnable)
condvar_broadcast_example =
    condvar_broadcast_lem waiting_kernel 1 0 1 (λ e. omega arith) refl (omega arith) (omega arith)

-- Thread 2 has registered in slot 0, and thread 3 signals.
abbrev registered : Kernel
registered = register kernel 1 0 0 0

abbrev signalled : Kernel
signalled = wake_slot registered 0 0 0

signals : condvar_signal registered 2 1 ≡ returns 0 signalled
unfolding condvar_signal register set_condvar first
signals = refl

lost_wakeup_example :
    let asleep = modified_sleep_begin (of_pid 2) signalled 1 0 0 in
    SleepsOn (asleep.table 1) 2
    × IsIdle asleep 0 0
    × ((other : ℕ)
        → (asleep.table other).type ≢ 0
        → (asleep.table other).parent ≡ some 0
        → (condvar_signal asleep other 1 ≡ returns 0 asleep)
          × (condvar_broadcast asleep other 1 ≡ returns 0 asleep))
    × ((later : Kernel) → Calls 0 1 asleep later → later ≡ asleep)
unfolding register set_condvar
lost_wakeup_example =
    lost_wakeup kernel signalled 1 2 0 1 0 0 (omega arith) (omega arith) (omega arith)
      (λ j lt. refl) (λ e. omega arith) refl signals
