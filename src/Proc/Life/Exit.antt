-- ===== src/Proc/Life/Exit.antt =====
-- What the end of `exit` does for the parent that waits.
use mutex.Common.{ℕ, ◌<◌, ◌≡◌, ◌≢◌, inl, inr, true, false, Option, some, arith}
use mutex.Kalloc.{Kmem}
use mutex.Proc.Defs.{sleeping, runnable, zombie, is_zombie, of_proc, Kernel, nproc}
use mutex.Proc.Sched.{wakeup1}
use mutex.Proc.Life.Defs.{waits_for, wait, reap, exit_finish}
use mutex.Proc.Life.Wait.{wait_lem}

module _ (k : Kernel) (me q : ℕ) (par : (k.table me).parent ≡ some q) (ne : q ≢ me)
    (me_in : me < nproc) (q_in : q < nproc) where
  exit_finish-states :
      (k.table q).state ≡ sleeping
      → (k.table q).chan ≡ of_proc q
      → (((exit_finish k me).table q).state ≡ runnable)
        × (((exit_finish k me).table me).state ≡ zombie)
  unfolding exit_finish wakeup1
  exit_finish-states s c = (ground arith, ground arith)

  waits_for-exit_finish : (k.table q).type ≡ 0 → waits_for (exit_finish k me) q 0 me ≡ true
  unfolding exit_finish wakeup1 waits_for
  waits_for-exit_finish t = ground arith

-- A process `q` sleeps in `wait` when its child `me` ends: then `q` is runnable and `me` a zombie,
-- and the next round of `wait` of `q` neither fails nor sleeps: it reaps a zombie.
pub wait-exit_finish :
    (kernel_end : ℕ) (freevm : Kmem → ℕ → Option Kmem) (k : Kernel) (me q : ℕ)
    → (k.table me).parent ≡ some q
    → q ≢ me
    → me < nproc
    → q < nproc
    → (k.table q).type ≡ 0
    → (k.table q).state ≡ sleeping
    → (k.table q).chan ≡ of_proc q
    → let k' = exit_finish k me in
      ((k'.table q).state ≡ runnable)
      × ((k'.table me).state ≡ zombie)
      × (i : ℕ) × (is_zombie (k'.table i).state ≡ true)
      × (wait kernel_end freevm k' q 0 ≡ reap kernel_end freevm k' i)
wait-exit_finish kernel_end freevm k me q par ne me_in q_in t s c =
    let (i, z, e) = reaped in (states.0, states.1, i, z, e)
  where
    states :
        (((exit_finish k me).table q).state ≡ runnable)
        × (((exit_finish k me).table me).state ≡ zombie)
    states = exit_finish-states k me q par ne me_in q_in s c

    contradiction :
        ((j : ℕ)
          → j < nproc
          → waits_for (exit_finish k me) q 0 j ≡ true
          → is_zombie ((exit_finish k me).table j).state ≡ false)
        → ⊥
    contradiction nothing =
        let no_zombie = nothing me me_in (waits_for-exit_finish k me q par ne me_in q_in t) in
        ground (arith, states.1, no_zombie)

    reaped :
        (i : ℕ) × (is_zombie ((exit_finish k me).table i).state ≡ true)
        × (wait kernel_end freevm (exit_finish k me) q 0
            ≡ reap kernel_end freevm (exit_finish k me) i)
    reaped = elim (wait_lem kernel_end freevm (exit_finish k me) q 0) [
      | inl (i, lt, w, z, e) ↦ (i, z, e)
      | inr (inl (nothing, why, e)) ↦ absurd (contradiction nothing)
      | inr (inr (nothing, kid, alive, e)) ↦ absurd (contradiction nothing)
    ]
