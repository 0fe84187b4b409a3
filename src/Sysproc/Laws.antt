-- ===== src/Sysproc/Laws.antt =====
-- How a thread's return value travels, and who may fork.
use mutex.Common.{
  ℕ, ◌+◌, ◌<◌, ◌≡◌, ◌≢◌, ◌⊎◌, ◌∙◌, refl, not, ◌&&◌, Option, some, ◌==◌, arith, IsFirst, minus_one,
}
use mutex.Kalloc.{Kmem, kfree}
use mutex.Proc.{Kernel, unused, nproc, returns}
use mutex.Proc.Sched.{wakeup1}
use mutex.Proc.Life.{exit_finish}
use mutex.Proc.Life.Wait.{getthreadretval_lem}
use mutex.Proc.Life.Fork.{System}
use mutex.Sysproc.{sys_fork, sys_kthread_exit, sys_kthread_fetchretval, save_retval}

module _ (k : Kernel) (me retval : ℕ) (arg : ℕ → Option ℕ) (got : arg 0 ≡ some retval) where
  abbrev ended : Kernel
  ended = exit_finish (sys_kthread_exit arg k me) me

  -- The end of `exit` leaves the number, the parent and the return value of the caller, and of no
  -- other process anything but its state.
  ended-slot :
      (j : ℕ)
      → ((ended.table j).pid ≡ (k.table j).pid)
        × ((ended.table j).type ≡ (k.table j).type)
        × ((ended.table j).parent ≡ (k.table j).parent)
        × ((ended.table j).threadattr ≡ (k.table j).threadattr)
        × ((ended.table j).tcount ≡ (k.table j).tcount)
        × ((ended.table j).kstack ≡ (k.table j).kstack)
  unfolding exit_finish sys_kthread_exit save_retval wakeup1
  ended-slot j =
      (ground arith, ground arith, ground arith, ground arith, ground arith, ground arith)

  ended-retval : ((ended.table me).threadretval ≡ retval) × (ended.kmem ≡ k.kmem)
  unfolding exit_finish sys_kthread_exit save_retval wakeup1
  ended-retval = (ground arith, refl)

  ended-IsFirst :
      IsFirst (λ j. not ((k.table j).type == 0) && (k.table j).pid == (k.table me).pid) nproc me
      → IsFirst
          (λ j. not ((ended.table j).type == 0) && (ended.table j).pid == (ended.table me).pid)
          nproc
          me
  ended-IsFirst f = record {
    below = f.below;
    passes = ground (arith, ended-slot me, f.passes);
    earlier_fail = λ j lt. ground (arith, ended-slot j, ended-slot me, f.earlier_fail j lt);
  }

-- A thread in slot `me`, made without attributes, whose number no earlier thread of the table has,
-- ends by `sys_kthread_exit` with the value `retval`, no thread of its own being left. Then
-- `sys_kthread_fetchretval` of its number answers `retval`, and gives back its slot and its stack.
sys_kthread_fetchretval-sys_kthread_exit :
    (kernel_end : ℕ) (k : Kernel) (me q retval : ℕ) (m : Kmem) (arg arg' : ℕ → Option ℕ)
    → arg 0 ≡ some retval
    → arg' 0 ≡ some (k.table me).pid
    → IsFirst (λ j. not ((k.table j).type == 0) && (k.table j).pid == (k.table me).pid) nproc me
    → (k.table me).threadattr ≡ 0
    → (k.table me).parent ≡ some q
    → q ≢ me
    → 0 < (k.table q).tcount
    → (k.table q).tcount < 0x1_0000_0000
    → kfree kernel_end k.kmem (k.table me).kstack ≡ some m
    → (k' : Kernel) × (sys_kthread_fetchretval kernel_end arg'
          (exit_finish (sys_kthread_exit arg k me) me)
        ≡ returns retval k')
      × ((k'.table me).state ≡ unused)
      × (k'.kmem ≡ m)
      × ((k'.table q).tcount + 1 ≡ (k.table q).tcount)
unfolding sys_kthread_fetchretval
sys_kthread_fetchretval-sys_kthread_exit kernel_end k me q retval m arg arg' got got' f attr par ne
      pos small free =
    let gone = exit_finish (sys_kthread_exit arg k me) me in
    let at_me = ended-slot k me retval arg got me in
    let at_q = ended-slot k me retval arg got q in
    let (value, kept) = ended-retval k me retval arg got in
    let (r, k', e, u, p, mem, count, rest) =
      getthreadretval_lem kernel_end (λ m' p. some m') gone me q m
        (ended-IsFirst k me retval arg got f) (at_me.3 ∙ attr) (at_me.2 ∙ par) ne
        (ground (arith, at_q.4)) (ground (arith, at_q.4)) (rw (kept, at_me.5) free) in
    (k', ground (arith, e, value, at_me.0), u, mem, ground (arith, at_q.4, count))

-- `sys_fork` is refused with -1, and changes nothing, for a thread and for a process that has
-- threads.
pub sys_fork-refused :
    {W : Type 0} (filedup : ℕ → W → Option W) (idup : ℕ → W → W) (kernel_end forkret trapret : ℕ)
    (copyuvm : Kmem → ℕ → ℕ → ℕ × Kmem) (s : System W) (me : ℕ)
    → ((s.kernel.table me).type ≢ 0) ⊎ ((s.kernel.table me).tcount ≢ 0)
    → sys_fork filedup idup kernel_end forkret trapret copyuvm s me ≡ some (minus_one, s)
unfolding sys_fork
sys_fork-refused {W} filedup idup kernel_end forkret trapret copyuvm s me h = ground arith
