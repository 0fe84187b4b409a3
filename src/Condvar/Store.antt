-- ===== src/Condvar/Store.antt =====
-- What the writes to one condition variable, and the wakeups, leave as it was.
use mutex.Common.{ℕ, ◌<◌, ◌≡◌, ◌≢◌, ◌⊎◌, ◌==◌, if◌then◌else◌, arith}
use mutex.Proc.{sleeping, runnable, Chan, of_pid, Condvar, Proc, Kernel, nproc}
use mutex.Proc.Store.{set_mutex}
use mutex.Proc.Sched.{wakeup, modified_sleep_begin}
use mutex.Condvar.Defs.{condvar_of, slots_of, set_condvar, set_slot, wake_slot}

-- The fields of a process that signalling does not touch.
pub record SameThread (p p' : Proc) : Type 0 where
  pub type : p'.type ≡ p.type
  pub parent : p'.parent ≡ p.parent
  pub pid : p'.pid ≡ p.pid
  pub mutexlist : p'.mutexlist ≡ p.mutexlist

module _ (k : Kernel) (q c : ℕ) (v : Condvar) where
  pub condvar_of-set_self : condvar_of (set_condvar k q c v) q c ≡ v
  unfolding set_condvar
  condvar_of-set_self = ground arith

  pub condvar_of-set_ne :
      (p j : ℕ) → (p ≢ q) ⊎ (j ≢ c) → condvar_of (set_condvar k q c v) p j ≡ condvar_of k p j
  unfolding set_condvar
  condvar_of-set_ne p j h = ground arith

  pub set_condvar-SameThread : (p : ℕ) → SameThread (k.table p) ((set_condvar k q c v).table p)
  unfolding set_condvar
  set_condvar-SameThread p = ground arith

  -- Who sleeps, and on what, stays.
  pub sleep-set_condvar :
      (p : ℕ)
      → let t = (set_condvar k q c v).table p in
        (t.state ≡ (k.table p).state) × (t.chan ≡ (k.table p).chan)
  unfolding set_condvar
  sleep-set_condvar p = ground arith

pub slots_of-set_slot :
    (k : Kernel) (q c i v j : ℕ)
    → slots_of (set_slot k q c i v) q c j ≡ (if i == j then v else slots_of k q c j)
unfolding set_condvar
slots_of-set_slot k q c i v j = ground arith

pub slots_of-wakeup :
    (chan : Chan) (k : Kernel) (q c j : ℕ) → slots_of (wakeup chan k) q c j ≡ slots_of k q c j
unfolding wakeup
slots_of-wakeup chan k q c j = ground arith

pub wakeup-SameThread :
    (chan : Chan) (k : Kernel) (p : ℕ) → SameThread (k.table p) ((wakeup chan k).table p)
unfolding wakeup
wakeup-SameThread chan k p = ground arith

-- One used slot: its process is woken, the slot is free, and the other slots stay.
pub slots_of-wake_slot :
    (k : Kernel) (q c i j : ℕ)
    → slots_of (wake_slot k q c i) q c j ≡ (if i == j then 0 else slots_of k q c j)
unfolding wake_slot
slots_of-wake_slot k q c i j = ground (
  arith,
  slots_of-set_slot (wakeup (of_pid (slots_of k q c i)) k) q c i 0 j,
  slots_of-wakeup (of_pid (slots_of k q c i)) k q c j,
)

abbrev pub SleepsOn : Proc → ℕ → Type 0
SleepsOn p pid = (p.state ≡ sleeping) × (p.chan ≡ of_pid pid)

pub state-wake_slot :
    (k : Kernel) (q c i p : ℕ)
    → p < nproc
    → (SleepsOn (k.table p) (slots_of k q c i) → ((wake_slot k q c i).table p).state ≡ runnable)
      × (((k.table p).chan ≢ of_pid (slots_of k q c i)) ⊎ ((k.table p).state ≢ sleeping)
          → ((wake_slot k q c i).table p).state ≡ (k.table p).state)
      × (((wake_slot k q c i).table p).chan ≡ (k.table p).chan)
unfolding wake_slot wakeup set_condvar
state-wake_slot k q c i p lt = (λ h. ground arith, λ h. ground arith, ground arith)

pub slots_of-modified_sleep :
    (chan : Chan) (k : Kernel) (me q i c j : ℕ)
    → slots_of (modified_sleep_begin chan k me q i) q c j ≡ slots_of k q c j
unfolding modified_sleep_begin set_mutex
slots_of-modified_sleep chan k me q i c j = ground arith
