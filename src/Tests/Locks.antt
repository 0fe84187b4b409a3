-- ===== src/Tests/Locks.antt =====
-- Spinlocks, mutexes and physical pages.
use mutex.Common.{ℕ, ◌≡◌, ◌≢◌, ◌⊎◌, refl, true, false, some, [], ◌∷◌, arith, first}
use mutex.Spinlock.{
  Spinlock, Cpu, pushcli, holding, acquire, test_and_set, taken, getcallerpcs, initlock,
}
use mutex.Spinlock.Laws.{IsNested}
use mutex.Kalloc.{Kmem, kfree}
use mutex.Kalloc.Stack.{Holds, kfree_lem}
use mutex.Proc.{Kernel, returns, spins as still_spins}
use mutex.Proc.Store.{mutex_of}
use mutex.Mutex.{names_mutex, mutex_init, mutex_lock, mutex_unlock}
use mutex.Mutex.Laws.{mutex_lock_lem}
use mutex.Tests.Data.{free_lock, kernel, two_pages, two_pages-Holds, cpu_at, no_frames, kernel_end}

cpu_at-IsNested : (i : ℕ) → IsNested (cpu_at i)
cpu_at-IsNested i = record { masked = λ h. absurd (h refl) }

abbrev held_lock : Spinlock
held_lock = record free_lock { locked = 1; cpu = some 1; pcs = getcallerpcs no_frames 0 }

abbrev holder : Cpu
holder = record { index = 1; ncli = 1; intena = true; interrupts = false }

acquires : acquire no_frames 0 (cpu_at 1) free_lock ≡ taken holder held_lock
unfolding acquire pushcli holding test_and_set getcallerpcs
acquires = refl

kfree_example :
    (k' : Kmem) × (kfree kernel_end two_pages 0x8040_2000 ≡ some k')
    × Holds k' (0x8040_2000 ∷ 0x8040_1000 ∷ 0x8040_0000 ∷ [])
kfree_example =
    (kfree_lem kernel_end 0x8040_2000 two_pages (0x8040_1000 ∷ 0x8040_0000 ∷ []) (omega arith)
        two_pages-Holds).0
      refl ((λ e. omega arith), ((λ e. omega arith), tt))

mutex_lock_example :
    (k' : Kernel) × (mutex_lock kernel 1 1 ≡ returns 1 k')
    × ((other : ℕ)
        → (k'.table other).type ≢ 0
        → (k'.table other).parent ≡ some 0
        → (mutex_lock k' other 1 ≡ still_spins)
          × (k'' : Kernel) × (mutex_unlock k' other 1 ≡ returns 1 k'')
          × ((mutex_of k'' 0 0).lock.locked ≡ 0)
          × (names_mutex (k''.table 0).mutexlist 1 ≡ true)
          × ((p j : ℕ) → (p ≢ 0) ⊎ (j ≢ 0) → mutex_of k'' p j ≡ mutex_of kernel p j))
    × ((p j : ℕ) → (p ≢ 0) ⊎ (j ≢ 0) → mutex_of k' p j ≡ mutex_of kernel p j)
mutex_lock_example = (mutex_lock_lem kernel 1 0 1 (λ e. omega arith) refl refl).1 refl

-- The process makes a second mutex, number 2.
makes_second : (k' : Kernel) × (mutex_init kernel 0 ≡ returns 2 k')
unfolding mutex_init initlock first
makes_second = (_, refl)
