-- ===== src/Proc/Store.antt =====
-- Reading and writing one mutex of one process in the process table.
use mutex.Common.{ℕ, ◌≡◌, ◌≢◌, ◌⊎◌, arith, update}
use mutex.Proc.Defs.{Mutex, Kernel, set_proc}

abbrev pub mutex_of : Kernel → ℕ → ℕ → Mutex
mutex_of k q i = (k.table q).mutexlist i

unfoldable pub set_mutex : Kernel → ℕ → ℕ → Mutex → Kernel
set_mutex k q i m =
    set_proc k q (record (k.table q) { mutexlist = update (k.table q).mutexlist i m })

abbrev pub set_locked : Mutex → ℕ → Mutex
set_locked m v = record m { lock = record m.lock { locked = v } }

module _ (k : Kernel) (q i : ℕ) (m : Mutex) where
  pub mutex_of-set_mutex_self : mutex_of (set_mutex k q i m) q i ≡ m
  unfolding set_mutex
  mutex_of-set_mutex_self = ground arith

  pub mutex_of-set_mutex_ne :
      (p j : ℕ) → (p ≢ q) ⊎ (j ≢ i) → mutex_of (set_mutex k q i m) p j ≡ mutex_of k p j
  unfolding set_mutex
  mutex_of-set_mutex_ne p j h = ground arith

  -- All but the mutexes stays.
  pub rest-set_mutex :
      (p : ℕ)
      → let t = (set_mutex k q i m).table p in
        (t.type ≡ (k.table p).type)
        × (t.parent ≡ (k.table p).parent)
        × (t.state ≡ (k.table p).state)
        × (t.chan ≡ (k.table p).chan)
        × (t.pid ≡ (k.table p).pid)
        × (t.condvarlist ≡ (k.table p).condvarlist)
  unfolding set_mutex
  rest-set_mutex p = ground arith
