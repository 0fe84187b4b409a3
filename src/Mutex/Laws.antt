-- ===== src/Mutex/Laws.antt =====
-- The four mutex calls, one after the other.
use mutex.Common.{
  ℕ, ◌+◌, ◌-◌, ◌<◌, ◌≡◌, ◌≢◌, ◌↔◌, ◌⊎◌, refl, sym, ◌∙◌, ap, inl, inr, true, false, some, arith,
  first, first-IsFirst, first-none, IsFirst, Option-cases, minus_one,
}
use mutex.Proc.{Mutex, Kernel, nmutx, returns, spins}
use mutex.Spinlock.{initlock}
use mutex.Proc.Store.{
  mutex_of, set_mutex, set_locked, mutex_of-set_mutex_self, mutex_of-set_mutex_ne,
}
use mutex.Mutex.{
  is_free, new_mutex, mutex_init, names_mutex, old_mutex, mutex_destroy, mutex_lock, mutex_unlock,
}

names_mutex-of_id :
    (ms : ℕ → Mutex) (i : ℕ) → i < nmutx → (ms i).lock.id ≡ i + 1 → names_mutex ms (i + 1) ≡ true
names_mutex-of_id ms i lt e = let back : i + 1 - 1 ≡ i = omega arith in rw back (ground arith)

names_mutex-destroyed :
    (ms : ℕ → Mutex) (m : ℕ) → (ms (m - 1)).lock.id ≡ minus_one → names_mutex ms m ≡ false
names_mutex-destroyed ms m e = ground arith

new_mutex-id : (m : Mutex) (i : ℕ) → (new_mutex m i).lock.id ≡ i + 1
unfolding initlock
new_mutex-id m i = refl

-- `mutex_init` takes the first free entry `i` of the caller's list, answers `i + 1`, and leaves
-- there an unlocked mutex of that number; no other entry changes. If all 64 are in use it answers
-- -1 and changes nothing.
mutex_init_lem :
    (k : Kernel) (me : ℕ)
    → ((i : ℕ) × (k' : Kernel) × IsFirst (is_free (k.table me).mutexlist) nmutx i
        × (mutex_init k me ≡ returns (i + 1) k')
        × (names_mutex (k'.table me).mutexlist (i + 1) ≡ true)
        × ((mutex_of k' me i).lock.locked ≡ 0)
        × ((q j : ℕ) → (q ≢ me) ⊎ (j ≢ i) → mutex_of k' q j ≡ mutex_of k q j))
      ⊎ (((j : ℕ) → j < nmutx → (mutex_of k me j).lock.id ≢ minus_one)
          × (mutex_init k me ≡ returns minus_one k))
unfolding mutex_init
mutex_init_lem k me = elim (Option-cases (first (is_free (k.table me).mutexlist) nmutx)) [
  | inl e ↦ inr (
    λ j lt. ground (arith, first-none (is_free (k.table me).mutexlist) nmutx e j lt),
    rw (e, mutex_init),
  )
  | inr (i, e) ↦
      let found = first-IsFirst (is_free (k.table me).mutexlist) nmutx i e in
      inl (
        i,
        made i,
        found,
        rw (e, mutex_init),
        names_mutex-of_id ((made i).table me).mutexlist i found.below
            (ap (λ (m : Mutex). m.lock.id) (self i) ∙ new_mutex-id (mutex_of k me i) i),
        ap (λ (m : Mutex). m.lock.locked) (self i),
        mutex_of-set_mutex_ne k me i (new_mutex (mutex_of k me i) i),
      )
]
  where
    made : ℕ → Kernel
    made i = set_mutex k me i (new_mutex (mutex_of k me i) i)

    self : (i : ℕ) → mutex_of (made i) me i ≡ new_mutex (mutex_of k me i) i
    self i = mutex_of-set_mutex_self k me i (new_mutex (mutex_of k me i) i)

-- A mutex that `mutex_init` has made is destroyed by its number: the entry is free again, and a
-- second `mutex_destroy` is refused.
mutex_destroy-mutex_init :
    (k k' : Kernel) (me m : ℕ)
    → mutex_init k me ≡ returns m k'
    → m ≢ minus_one
    → (k'' : Kernel) × (mutex_destroy k' me m ≡ returns m k'')
      × (is_free (k''.table me).mutexlist (m - 1) ≡ true)
      × (mutex_destroy k'' me m ≡ returns minus_one k'')
unfolding mutex_destroy mutex_init
mutex_destroy-mutex_init k k' me m e ne = elim (mutex_init_lem k me) [
  | inl (i, t, found, r, named, open', rest) ↦
      let same : returns m k' ≡ returns (i + 1) t = sym e ∙ r in
      let num : m ≡ i + 1 = cc in let ker : k' ≡ t = cc in destroyed (rw (ker, num) named)
  | inr (full, r) ↦ let same : returns m k' ≡ returns minus_one k = sym e ∙ r in absurd (ne (cc))
]
  where
    gone : Kernel
    gone = set_mutex k' me (m - 1) (old_mutex (mutex_of k' me (m - 1)))

    self : mutex_of gone me (m - 1) ≡ old_mutex (mutex_of k' me (m - 1))
    self = mutex_of-set_mutex_self k' me (m - 1) (old_mutex (mutex_of k' me (m - 1)))

    destroyed :
        names_mutex (k'.table me).mutexlist m ≡ true
        → (k'' : Kernel) × (mutex_destroy k' me m ≡ returns m k'')
          × (is_free (k''.table me).mutexlist (m - 1) ≡ true)
          × (mutex_destroy k'' me m ≡ returns minus_one k'')
    destroyed named = (
      gone,
      rw (named, mutex_destroy),
      ground (arith, self),
      rw (
        names_mutex-destroyed (gone.table me).mutexlist m (ap (λ (x : Mutex). x.lock.id) self),
        mutex_destroy,
      ),
    )

-- For a thread whose parent `q` has the mutex: `mutex_lock` takes it if it is free, spins if it is
-- taken, and never fails; once it is taken, every thread of `q` spins on it, and one `mutex_unlock`,
-- by any thread of `q`, frees it again, and `q` has it still under its number. Neither the lock nor
-- the unlock changes any other mutex of any process.
pub mutex_lock_lem :
    (k : Kernel) (me q m : ℕ)
    → (k.table me).type ≢ 0
    → (k.table me).parent ≡ some q
    → names_mutex (k.table q).mutexlist m ≡ true
    → ((mutex_of k q (m - 1)).lock.locked ≢ 0 → mutex_lock k me m ≡ spins)
      × ((mutex_of k q (m - 1)).lock.locked ≡ 0
          → (k' : Kernel) × (mutex_lock k me m ≡ returns m k')
            × ((other : ℕ)
                → (k'.table other).type ≢ 0
                → (k'.table other).parent ≡ some q
                → (mutex_lock k' other m ≡ spins)
                  × (k'' : Kernel) × (mutex_unlock k' other m ≡ returns m k'')
                  × ((mutex_of k'' q (m - 1)).lock.locked ≡ 0)
                  × (names_mutex (k''.table q).mutexlist m ≡ true)
                  × ((p j : ℕ) → (p ≢ q) ⊎ (j ≢ m - 1) → mutex_of k'' p j ≡ mutex_of k p j))
            × ((p j : ℕ) → (p ≢ q) ⊎ (j ≢ m - 1) → mutex_of k' p j ≡ mutex_of k p j))
unfolding mutex_lock mutex_unlock
mutex_lock_lem k me q m th par named = (
  λ busy. ground arith,
  λ free. (
    taken,
    ground arith,
    λ other th' par'. (
      ground (arith, self),
      freed,
      ground (arith, self),
      ground (arith, self'),
      ground (arith, self, self', ap (λ (x : Mutex). x.lock.id) self'),
      λ p j other'.
          mutex_of-set_mutex_ne taken q (m - 1) opened p j other'
          ∙ mutex_of-set_mutex_ne k q (m - 1) owned p j other',
    ),
    mutex_of-set_mutex_ne k q (m - 1) owned,
  ),
)
  where
    owned : Mutex
    owned = record (set_locked (mutex_of k q (m - 1)) 1) { lockingthread = m }

    taken : Kernel
    taken = set_mutex k q (m - 1) owned

    self : mutex_of taken q (m - 1) ≡ owned
    self = mutex_of-set_mutex_self k q (m - 1) owned

    opened : Mutex
    opened = record (set_locked (mutex_of taken q (m - 1)) 0) { lockingthread = 0 }

    freed : Kernel
    freed = set_mutex taken q (m - 1) opened

    self' : mutex_of freed q (m - 1) ≡ opened
    self' = mutex_of-set_mutex_self taken q (m - 1) opened

-- Lock and unlock are refused with -1, with no effect, exactly for a caller that is no thread and
-- for a number that is no mutex of the parent's.
refused :
    (k : Kernel) (me q m : ℕ)
    → (k.table me).parent ≡ some q
    → ((mutex_lock k me m ≡ returns minus_one k)
        ↔ ((((k.table me).type ≡ 0) ⊎ (names_mutex (k.table q).mutexlist m ≡ false))))
      × ((mutex_unlock k me m ≡ returns minus_one k)
          ↔ ((((k.table me).type ≡ 0) ⊎ (names_mutex (k.table q).mutexlist m ≡ false))))
unfolding mutex_lock mutex_unlock
refused k me q m par =
    ((λ e. ground arith, λ h. ground arith), (λ e. ground arith, λ h. ground arith))
