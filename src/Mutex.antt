-- ===== src/Mutex.antt =====
-- mutex_init, mutex_destroy, mutex_lock and mutex_unlock of proc.c. A process owns 64 mutexes, and
-- its threads lock those of their parent.
pub mod Laws
pub mod Race
use mutex.Common.{
  ℕ, ◌+◌, ◌-◌, Bool, true, false, not, ◌&&◌, Option, none, some, leb, ◌==◌, if◌then◌else◌, update,
  first, minus_one, is_positive,
}
use mutex.Spinlock.{Spinlock, initlock}
use mutex.Proc.{Mutex, Proc, Kernel, nmutx, Outcome, returns, spins, fault}
use mutex.Proc.Store.{mutex_of, set_mutex, set_locked}

-- An entry of the list is free while its `id` is -1.
abbrev pub is_free : (ℕ → Mutex) → ℕ → Bool
is_free ms i = (ms i).lock.id == minus_one

abbrev pub new_mutex : Mutex → ℕ → Mutex
new_mutex m i = record { lock = initlock (record m.lock { id = i + 1 }) (i + 1); lockingthread = 0 }

unfoldable pub mutex_init : Kernel → ℕ → Outcome
unfolding first initlock
mutex_init k me = elim (first (is_free (k.table me).mutexlist) nmutx) [
  | none ↦ returns minus_one k
  | some i ↦ returns (i + 1) (set_mutex k me i (new_mutex (mutex_of k me i) i))
]

-- `(mutex > 0) && (mutex <= NMUTX) && (mutexlist[mutex-1].lock.id == mutex)`
abbrev pub names_mutex : (ℕ → Mutex) → ℕ → Bool
names_mutex ms mutex = is_positive mutex && leb mutex nmutx && (ms (mutex - 1)).lock.id == mutex

abbrev pub old_mutex : Mutex → Mutex
old_mutex m = record {
  lock = initlock (record m.lock { id = minus_one }) minus_one;
  lockingthread = minus_one;
}

unfoldable pub mutex_destroy : Kernel → ℕ → ℕ → Outcome
unfolding initlock
mutex_destroy k me mutex =
    if names_mutex (k.table me).mutexlist mutex
    then returns mutex (set_mutex k me (mutex - 1) (old_mutex (mutex_of k me (mutex - 1))))
    else returns minus_one k

-- Both callers test `proc->type` first, and then read through `proc->parent`.
abbrev pub at_parent : Kernel → ℕ → (ℕ → Outcome) → Outcome
at_parent k me f =
    if (k.table me).type == 0
    then returns minus_one k
    else elim (k.table me).parent [ none ↦ fault | some q ↦ f q ]

-- The loop `while(xchg(&locked, 1) != 0);` stands under `ptable.lock`: here it spins at once if
-- the mutex is taken. `Mutex.Race` has the steps.
unfoldable pub mutex_lock : Kernel → ℕ → ℕ → Outcome
mutex_lock k me mutex = at_parent k me λ q.
    if names_mutex (k.table q).mutexlist mutex
    then if (mutex_of k q (mutex - 1)).lock.locked == 0
      then returns mutex (
          set_mutex k q (mutex - 1)
            (record (set_locked (mutex_of k q (mutex - 1)) 1) { lockingthread = mutex }))
      else spins
    else returns minus_one k

unfoldable pub mutex_unlock : Kernel → ℕ → ℕ → Outcome
mutex_unlock k me mutex = at_parent k me λ q.
    if names_mutex (k.table q).mutexlist mutex
    then returns mutex (
        set_mutex k q (mutex - 1)
          (record (set_locked (mutex_of k q (mutex - 1)) 0) { lockingthread = 0 }))
    else returns minus_one k
