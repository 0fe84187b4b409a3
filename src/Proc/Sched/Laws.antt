-- ===== src/Proc/Sched/Laws.antt =====
-- What waking, killing and scheduling change, and what they leave.
use mutex.Common.{
  ℕ, zero, suc, ◌+◌, ◌≤◌, ◌<◌, ◌≡◌, ◌≢◌, ◌↔◌, ◌⊎◌, inl, inr, true, some, List, [], ◌∷◌, ◌==◌, arith,
  first, first-IsFirst, first-none, IsFirst, Bool-cases, Option-cases, minus_one,
}
use mutex.Spinlock.{Spinlock, Cpu, pushcli, holding, taken, test_and_set, acquire}
use mutex.Proc.Defs.{sleeping, runnable, running, Chan, same_chan, Kernel, nproc, set_proc, returns}
use mutex.Proc.Sched.{
  wakeup, kill_one, kill, sched, yield_begin, sleep_begin, pass_from, scheduler_pass,
}

pub same_chan_iff : (a b : Chan) → (same_chan a b ≡ true) ↔ (a ≡ b)
same_chan_iff a b = ground arith

-- `wakeup` makes exactly the processes of the table that sleep on `chan` runnable, and changes
-- nothing else of them; every other process stays as it was.
pub wakeup_lem :
    (chan : Chan) (k : Kernel) (i : ℕ)
    → (i < nproc
        → (k.table i).state ≡ sleeping
        → (k.table i).chan ≡ chan
        → (wakeup chan k).table i ≡ record (k.table i) { state = runnable })
      × ((nproc ≤ i) ⊎ ((k.table i).state ≢ sleeping) ⊎ ((k.table i).chan ≢ chan)
          → (wakeup chan k).table i ≡ k.table i)
unfolding wakeup
wakeup_lem chan k i = (
  λ lt s e. ground (arith, same_chan_iff (k.table i).chan chan),
  λ h. ground (arith, same_chan_iff (k.table i).chan chan),
)

-- `kill` answers 0 if some process of the table has the number: then the first such process is
-- marked, woken if it sleeps, and no other process changes. Else it answers -1 and changes
-- nothing.
pub kill_lem :
    (k : Kernel) (pid : ℕ)
    → ((i : ℕ) × IsFirst (λ j. (k.table j).pid == pid) nproc i
        × (kill k pid ≡ returns 0 (set_proc k i (kill_one (k.table i)))))
      ⊎ (((j : ℕ) → j < nproc → (k.table j).pid ≢ pid) × (kill k pid ≡ returns minus_one k))
unfolding kill
kill_lem k pid = elim (Option-cases (first (λ i. (k.table i).pid == pid) nproc)) [
  | inl e ↦
      inr (
        λ j lt. ground (arith, first-none (λ j. (k.table j).pid == pid) nproc e j lt),
        rw (e, kill),
      )
  | inr (i, e) ↦ inl (i, first-IsFirst _ nproc i e, rw (e, kill))
]

-- A process that yields or goes to sleep with only `ptable.lock` taken passes every check of
-- `sched`: on a CPU that holds no lock, once `acquire` has got `ptable.lock`.
sched-acquire :
    (memory : ℕ → ℕ) (frame : ℕ) (c c' : Cpu) (lk lk' : Spinlock) (k : Kernel) (me : ℕ)
    (chan : Chan)
    → c.ncli ≡ 0
    → acquire memory frame c lk ≡ taken c' lk'
    → (sched lk' c' ((yield_begin k me).table me) ≡ some c.interrupts)
      × (sched lk' c' ((sleep_begin chan k me).table me) ≡ some c.interrupts)
unfolding acquire sched yield_begin sleep_begin test_and_set pushcli holding
sched-acquire memory frame c c' lk lk' k me chan n e = (ground arith, ground arith)

-- `i` is among the processes that were run.
abbrev pub Ran : ℕ → List ℕ → Type 0
Ran i [] = ⊥
Ran i (j ∷ js) = (i ≡ j) ⊎ Ran i js

-- No process makes another one, that is runnable, anything else: all that a running process does
-- to the state of another is to wake it, kill it or create it.
pub record KeepsRunnable (run : ℕ → Kernel → Kernel) : Type 0 where
  pub keeps :
      (i j : ℕ) (k : Kernel)
      → i ≢ j
      → (k.table j).state ≡ runnable
      → ((run i k).table j).state ≡ runnable

pass_from-Ran :
    (run : ℕ → Kernel → Kernel)
    → KeepsRunnable run
    → (n i j : ℕ) (k : Kernel) → i ≤ j
    → j < i + n
    → (k.table j).state ≡ runnable
    → Ran j (pass_from run n i k).1
unfolding pass_from
pass_from-Ran run h zero i j k a b r = absurd (omega arith)
pass_from-Ran run h (suc n) i j k a b r = elim (Bool-cases (i == j)) [
  | inl same ↦ ground arith
  | inr other ↦ ground (
    arith,
    h.keeps i j (set_proc k i (record (k.table i) { state = running })),
    pass_from-Ran run h n (i + 1) j k,
    pass_from-Ran run h n (i + 1) j (run i (set_proc k i (record (k.table i) { state = running }))),
  )
]

-- One pass of the scheduler runs every process that is runnable when the pass begins, whatever the
-- processes do that run before it, as long as they take no other process off the run queue.
scheduler_pass-Ran :
    (run : ℕ → Kernel → Kernel) (k : Kernel) (j : ℕ)
    → KeepsRunnable run
    → j < nproc
    → (k.table j).state ≡ runnable
    → Ran j (scheduler_pass run k).1
unfolding scheduler_pass
scheduler_pass-Ran run k j h lt r = pass_from-Ran run h nproc 0 j k (omega arith) (omega arith) r
