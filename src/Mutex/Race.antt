-- ===== src/Mutex/Race.antt =====
-- The threads of one process on one of its mutexes: `mutex_lock` and `mutex_unlock` of proc.c as
-- the atomic steps that they take, interleaved in any order. A loop that goes round once more
-- changes nothing and is no step.
use mutex.Common.{ℕ, ◌≡◌, ◌≢◌, refl, Bool, true, false, Option, none, some, arith, update}

-- Where a thread stands. In `mutex_lock`: in the loop that reads `locked` (`checking`), before
-- `acquire(&ptable.lock)` (`past_check`), in the `xchg` loop (`swapping`), behind it
-- (`recording`). It has the mutex from there until `mutex_unlock` clears it: `critical` between the
-- calls, `unlocking` before `acquire(&ptable.lock)`, `clearing` behind it.
pub data Pc : Type 0 where
  idle checking past_check swapping recording critical unlocking clearing : Pc

pub record Threads : Type 0 where
  pub table_lock : Option ℕ
  pub locked : ℕ
  pub lockingthread : ℕ
  pub pc : ℕ → Pc

abbrev pub goes : Threads → ℕ → Pc → Threads
goes s i p = record s { pc = update s.pc i p }

-- Thread `i`, on mutex number `m`.
pub data Step (m : ℕ) (s t : Threads) : Type 0 where
  calls_lock : (i : ℕ) → s.pc i ≡ idle → t ≡ goes s i checking → Step m s t
  sees_free : (i : ℕ) → s.pc i ≡ checking → s.locked ≡ 0 → t ≡ goes s i past_check → Step m s t
  takes_table :
      (i : ℕ)
      → s.pc i ≡ past_check
      → s.table_lock ≡ none
      → t ≡ record (goes s i swapping) { table_lock = some i }
      → Step m s t
  swaps :
      (i : ℕ)
      → s.pc i ≡ swapping
      → s.locked ≡ 0
      → t ≡ record (goes s i recording) { locked = 1 }
      → Step m s t
  records :
      (i : ℕ)
      → s.pc i ≡ recording
      → t ≡ record (goes s i critical) { lockingthread = m; table_lock = none }
      → Step m s t
  calls_unlock : (i : ℕ) → s.pc i ≡ critical → t ≡ goes s i unlocking → Step m s t
  retakes_table :
      (i : ℕ)
      → s.pc i ≡ unlocking
      → s.table_lock ≡ none
      → t ≡ record (goes s i clearing) { table_lock = some i }
      → Step m s t
  clears :
      (i : ℕ)
      → s.pc i ≡ clearing
      → t ≡ record (goes s i idle) { locked = 0; lockingthread = 0; table_lock = none }
      → Step m s t

pub data Reach (m : ℕ) (s : Threads) : Threads → Type 0 where
  start : Reach m s s
  later : {t u : Threads} → Reach m s t → Step m t u → Reach m s u

-- A fresh mutex, as `mutex_init` makes it, and no thread in a call.
abbrev pub fresh : Threads
fresh = record { table_lock = none; locked = 0; lockingthread = 0; pc = λ _. idle }

-- The thread has the mutex.
abbrev pub owns : Pc → Bool
owns recording = true
owns critical = true
owns unlocking = true
owns clearing = true
owns _ = false

-- The thread holds `ptable.lock`.
abbrev pub in_table : Pc → Bool
in_table swapping = true
in_table recording = true
in_table clearing = true
in_table _ = false

pub record Inv (s : Threads) : Type 0 where
  pub one_owner : (i j : ℕ) → owns (s.pc i) ≡ true → owns (s.pc j) ≡ true → i ≡ j
  pub owned : (i : ℕ) → owns (s.pc i) ≡ true → s.locked ≡ 1
  pub taken : s.locked ≢ 0 → (i : ℕ) × (owns (s.pc i) ≡ true)
  pub table_held : (i : ℕ) → in_table (s.pc i) ≡ true → s.table_lock ≡ some i
  pub table_holder : (i : ℕ) → s.table_lock ≡ some i → in_table (s.pc i) ≡ true

fresh-Inv : Inv fresh
fresh-Inv = record {
  one_owner = λ i j a b. cc;
  owned = λ i a. cc;
  taken = λ h. absurd (h refl);
  table_held = λ i a. cc;
  table_holder = λ i a. cc;
}

module _ (s t : Threads) (v : Inv s) where
  -- A move of thread `i` that touches neither lock and gives it neither.
  goes-Inv :
      (i : ℕ) (p : Pc)
      → owns p ≡ owns (s.pc i)
      → in_table p ≡ in_table (s.pc i)
      → t ≡ goes s i p
      → Inv t
  goes-Inv i p o n e = record {
    one_owner = λ a b x y. ground (arith, v.one_owner a b, v.one_owner a i, v.one_owner i b);
    owned = λ a x. ground (arith, v.owned a, v.owned i);
    taken = λ h. let (k, x) = v.taken (ground arith) in (k, ground arith);
    table_held = λ a x. ground (arith, v.table_held a, v.table_held i);
    table_holder = λ a x. ground (arith, v.table_holder a);
  }

  Step-Inv : {m : ℕ} → Step m s t → Inv t
  Step-Inv (calls_lock i p e) = goes-Inv i checking (rw p) (rw p) e
  Step-Inv (sees_free i p f e) = goes-Inv i past_check (rw p) (rw p) e
  Step-Inv (calls_unlock i p e) = goes-Inv i unlocking (rw p) (rw p) e
  Step-Inv (takes_table i p f e) = record {
    one_owner = λ a b x y. ground (arith, v.one_owner a b);
    owned = λ a x. ground (arith, v.owned a);
    taken = λ h. let (k, x) = v.taken (ground arith) in (k, ground arith);
    table_held = λ a x. ground (arith, v.table_held a);
    table_holder = λ a x. ground (arith, v.table_holder a);
  }
  Step-Inv (swaps i p f e) = record {
    one_owner = λ a b x y. ground (arith, v.owned a, v.owned b);
    owned = λ a x. ground (arith, v.owned a);
    taken = λ h. (i, ground arith);
    table_held = λ a x. ground (arith, v.table_held a, v.table_held i);
    table_holder = λ a x. ground (arith, v.table_holder a);
  }
  Step-Inv (records i p e) = record {
    one_owner = λ a b x y. ground (arith, v.one_owner a b, v.one_owner a i, v.one_owner i b);
    owned = λ a x. ground (arith, v.owned a, v.owned i);
    taken = λ h. (i, ground arith);
    table_held = λ a x. ground (arith, v.table_held a, v.table_held i);
    table_holder = λ a x. ground arith;
  }
  Step-Inv (retakes_table i p f e) = record {
    one_owner = λ a b x y. ground (arith, v.one_owner a b, v.one_owner a i, v.one_owner i b);
    owned = λ a x. ground (arith, v.owned a, v.owned i);
    taken = λ h. (i, ground arith);
    table_held = λ a x. ground (arith, v.table_held a);
    table_holder = λ a x. ground (arith, v.table_holder a);
  }
  Step-Inv (clears i p e) = record {
    one_owner = λ a b x y. ground (arith, v.one_owner a b);
    owned = λ a x. ground (arith, v.one_owner a i);
    taken = λ h. absurd (ground arith);
    table_held = λ a x. ground (arith, v.table_held a, v.table_held i);
    table_holder = λ a x. ground arith;
  }

Reach-Inv : {m : ℕ} {t : Threads} → Reach m fresh t → Inv t
Reach-Inv start = fresh-Inv
Reach-Inv (later {t = t} {u = u} r st) = Step-Inv t u (Reach-Inv r) st

-- From a fresh mutex, no interleaving of `mutex_lock` and `mutex_unlock` calls, by threads that
-- unlock only what they have locked, gives the mutex to two threads at once; and while a thread
-- has it, its `locked` is 1.
pub mutex_exclusion :
    {m : ℕ} {t : Threads}
    → Reach m fresh t
    → (i j : ℕ) → owns (t.pc i) ≡ true
    → owns (t.pc j) ≡ true
    → (i ≡ j) × (t.locked ≡ 1)
mutex_exclusion r i j a b = let v = Reach-Inv r in (v.one_owner i j a b, v.owned i a)

-- A thread is in the `xchg` loop, under `ptable.lock`, for a mutex that is taken.
pub record IsStuck (i : ℕ) (t : Threads) : Type 0 where
  pub spins : t.pc i ≡ swapping
  pub busy : t.locked ≡ 1

Step-IsStuck : {m : ℕ} (i : ℕ) (s t : Threads) → Inv s → Step m s t → IsStuck i s → IsStuck i t
Step-IsStuck i s t v (calls_lock j p e) h = ground arith
Step-IsStuck i s t v (sees_free j p f e) h = ground arith
Step-IsStuck i s t v (takes_table j p f e) h = ground arith
Step-IsStuck i s t v (swaps j p f e) h = ground arith
Step-IsStuck i s t v (records j p e) h = ground (arith, v.table_held i, v.table_held j)
Step-IsStuck i s t v (calls_unlock j p e) h = ground arith
Step-IsStuck i s t v (retakes_table j p f e) h = ground arith
Step-IsStuck i s t v (clears j p e) h = ground (arith, v.table_held i, v.table_held j)

Reach-IsStuck :
    {m : ℕ} (i : ℕ) {s t : Threads} → Inv s → IsStuck i s → Reach m s t → Inv t × IsStuck i t
Reach-IsStuck i v h start = (v, h)
Reach-IsStuck i v h (later {t = t} {u = u} r st) =
    let (v', h') = Reach-IsStuck i v h r in (Step-Inv t u v' st, Step-IsStuck i t u v' st h')

-- Deadlock. Take any reachable state in which a thread `j` is between its calls with the mutex,
-- another thread `i` has left the loop that reads `locked` but has not yet taken `ptable.lock`, and
-- `ptable.lock` is free. Then `i` can step to a state from which, whatever happens, `i` spins for
-- ever under `ptable.lock`: in every later state the mutex is still taken, `ptable.lock` is held by
-- `i`, and no thread is in `mutex_unlock` behind its `acquire`, so the mutex is never released.
pub deadlock :
    {m : ℕ} {s : Threads} (i j : ℕ)
    → Reach m fresh s
    → s.pc j ≡ critical
    → s.pc i ≡ past_check
    → s.table_lock ≡ none
    → (d : Threads) × Step m s d
      × ((t : Threads)
          → Reach m d t
          → IsStuck i t × (t.table_lock ≡ some i) × ((k : ℕ) → t.pc k ≢ clearing))
deadlock {m} {s} i j r own past free = (d, st, later_on)
  where
    d : Threads
    d = record (goes s i swapping) { table_lock = some i }

    st : Step m s d
    st = takes_table i past free refl

    v : Inv s
    v = Reach-Inv r

    later_on :
        (t : Threads)
        → Reach m d t
        → IsStuck i t × (t.table_lock ≡ some i) × ((k : ℕ) → t.pc k ≢ clearing)
    later_on t r' =
        let (v', h) = Reach-IsStuck i (Step-Inv s d v st) (ground (arith, v.owned j)) r' in
        (
          h,
          ground (arith, v'.table_held i),
          λ k e. ground (arith, v'.table_held i, v'.table_held k),
        )
