-- ===== src/Condvar/Laws.antt =====
-- Waiting, signalling and broadcasting on one condition variable.
use mutex.Common.{
  ℕ, ◌-◌, ◌≤◌, ◌<◌, ◌≡◌, ◌≢◌, ◌⊎◌, ◌∙◌, inl, inr, false, some, ◌==◌, if◌then◌else◌, arith, first,
  first-IsFirst, first-none, IsFirst, Option-cases, minus_one,
}
use mutex.Proc.{sleeping, runnable, of_pid, Kernel, nproc, maxthrds, nmutx, ncondvar, returns}
use mutex.Proc.Store.{mutex_of, set_mutex}
use mutex.Proc.Sched.{modified_sleep_begin, sleep_begin}
use mutex.Condvar.Defs.{slots_of, register, condvar_wait_begin, wake_slot, is_used, condvar_signal}
use mutex.Condvar.Store.{
  SleepsOn, slots_of-set_slot, slots_of-wake_slot, state-wake_slot, slots_of-modified_sleep,
}

module _ (k : Kernel) (me q c m : ℕ) where
  -- The state in which `condvar_wait` leaves a thread that got slot `i`.
  abbrev asleep : ℕ → Kernel
  asleep i = modified_sleep_begin (of_pid (k.table me).pid) (register k me q c i) me q m

  asleep-sleeps : (i : ℕ) → SleepsOn ((asleep i).table me) (k.table me).pid
  unfolding modified_sleep_begin sleep_begin
  asleep-sleeps i = (ground arith, ground arith)

  asleep-locked : (i : ℕ) → (mutex_of (asleep i) q m).lock.locked ≡ 0
  unfolding modified_sleep_begin sleep_begin set_mutex
  asleep-locked i = ground arith

  slots_of-asleep :
      (i j : ℕ)
      → slots_of (asleep i) q c j ≡ (if i == j then (k.table me).pid else slots_of k q c j)
  unfolding register
  slots_of-asleep i j =
      slots_of-modified_sleep (of_pid (k.table me).pid) (register k me q c i) me q m c j
      ∙ slots_of-set_slot k q c i (k.table me).pid j

-- `condvar_wait` by a process with a parent `q`, on numbers in range, takes the first free slot:
-- the caller's number stands in it and the other slots stay, the mutex is released, and the caller
-- sleeps on its own number. If all 32 slots are taken it answers -1 and changes nothing: the
-- caller goes on with the mutex still locked.
pub condvar_wait_lem :
    (k : Kernel) (me q condvar mutex : ℕ)
    → (k.table me).parent ≡ some q
    → 0 < condvar
    → condvar ≤ ncondvar
    → 0 < mutex
    → mutex ≤ nmutx
    → let c = condvar - 1 in
      ((i : ℕ) × (k' : Kernel) × IsFirst (λ j. slots_of k q c j == 0) maxthrds i
        × (condvar_wait_begin k me condvar mutex ≡ returns 0 k')
        × SleepsOn (k'.table me) (k.table me).pid
        × ((mutex_of k' q (mutex - 1)).lock.locked ≡ 0)
        × ((j : ℕ) → slots_of k' q c j ≡ (if i == j then (k.table me).pid else slots_of k q c j)))
      ⊎ (((j : ℕ) → j < maxthrds → slots_of k q c j ≢ 0)
          × (condvar_wait_begin k me condvar mutex ≡ returns minus_one k))
unfolding condvar_wait_begin
condvar_wait_lem k me q condvar mutex par cp cl mp ml =
    elim (Option-cases (first (λ j. slots_of k q c j == 0) maxthrds)) [
      | inl full ↦ inr (
        λ j lt. ground (arith, first-none (λ j. slots_of k q c j == 0) maxthrds full j lt),
        ground arith,
      )
      | inr (i, e) ↦ inl (
        i,
        asleep k me q c m i,
        first-IsFirst (λ j. slots_of k q c j == 0) maxthrds i e,
        ground arith,
        asleep-sleeps k me q c m i,
        asleep-locked k me q c m i,
        slots_of-asleep k me q c m i,
      )
    ]
  where
    c : ℕ
    c = condvar - 1

    m : ℕ
    m = mutex - 1

-- `condvar_signal` by a thread of `q`, on a number in range, always answers 0. If some slot is in
-- use, the first one is freed, every process of the table that sleeps on the number in it becomes
-- runnable, and no other slot and no other process's state changes. If none is, nothing changes.
pub condvar_signal_lem :
    (k : Kernel) (me q condvar : ℕ)
    → (k.table me).type ≢ 0
    → (k.table me).parent ≡ some q
    → 0 < condvar
    → condvar ≤ ncondvar
    → let c = condvar - 1 in
      ((i : ℕ) × (k' : Kernel) × IsFirst (is_used k q c) maxthrds i
        × (condvar_signal k me condvar ≡ returns 0 k')
        × ((j : ℕ) → slots_of k' q c j ≡ (if i == j then 0 else slots_of k q c j))
        × ((p : ℕ)
            → p < nproc
            → (SleepsOn (k.table p) (slots_of k q c i) → (k'.table p).state ≡ runnable)
              × (((k.table p).chan ≢ of_pid (slots_of k q c i)) ⊎ ((k.table p).state ≢ sleeping)
                  → (k'.table p).state ≡ (k.table p).state)))
      ⊎ (((j : ℕ) → j < maxthrds → is_used k q c j ≡ false)
          × (condvar_signal k me condvar ≡ returns 0 k))
unfolding condvar_signal
condvar_signal_lem k me q condvar th par cp cl =
    elim (Option-cases (first (is_used k q (condvar - 1)) maxthrds)) [
      | inl e ↦ inr (first-none (is_used k q (condvar - 1)) maxthrds e, ground arith)
      | inr (i, e) ↦ inl (
        i,
        wake_slot k q (condvar - 1) i,
        first-IsFirst (is_used k q (condvar - 1)) maxthrds i e,
        ground arith,
        slots_of-wake_slot k q (condvar - 1) i,
        λ p lt. let w = state-wake_slot k q (condvar - 1) i p lt in (w.0, w.1),
      )
    ]
