-- ===== src/Sysproc.antt =====
-- sysproc.c: the system calls on processes and threads. `arg i` is what `argint(i, ..)` of syscall.c
-- fetches, `none` where it fails. `leftover` is what an uninitialised variable holds.
pub mod Laws
use mutex.Common.{
  ℕ, ◌+◌, ◌-◌, ◌%◌, Bool, true, false, not, ◌||◌, Option, none, some, ltb, ◌==◌, if◌then◌else◌,
  minus_one,
}
use mutex.Kalloc.{Kmem}
use mutex.Proc.{Chan, Proc, Kernel, set_proc, Outcome, returns, fault}
use mutex.Proc.Sched.{kill, sleep_begin}
use mutex.Proc.Life.{WaitRound, answers, sleeps, wait, getthreadretval}
use mutex.Proc.Life.Fork.{System, fork, growproc}
use mutex.Mutex.{mutex_init, mutex_destroy, mutex_lock, mutex_unlock}
use mutex.Condvar.{
  condvar_init, condvar_destroy, condvar_wait_begin, condvar_signal, condvar_broadcast,
}

abbrev pub arg_or : Option ℕ → ℕ → ℕ
arg_or none initial = initial
arg_or (some a) initial = a

abbrev pub set_ctflag : Kernel → ℕ → ℕ → Kernel
set_ctflag k me flag = set_proc k me (record (k.table me) { ctflag = flag })

module _ {W : Type 0} (filedup : ℕ → W → Option W) (idup : ℕ → W → W)
    (kernel_end forkret trapret : ℕ) (copyuvm : Kmem → ℕ → ℕ → ℕ × Kmem) where
  unfoldable pub sys_fork : System W → ℕ → Option (ℕ × System W)
  unfolding fork
  sys_fork s me =
      if not ((s.kernel.table me).type == 0) || not ((s.kernel.table me).tcount == 0)
      then some (minus_one, s)
      else fork filedup idup kernel_end forkret trapret copyuvm
          (record s { kernel = set_ctflag s.kernel me 0 }) me 0 0 0 0 0

  unfoldable pub sys_kthread_create : (ℕ → Option ℕ) → System W → ℕ → Option (ℕ × System W)
  unfolding fork
  sys_kthread_create arg s me =
      fork filedup idup kernel_end forkret trapret copyuvm
        (record s { kernel = set_ctflag s.kernel me 1 }) me (arg_or (arg 0) 0) (arg_or (arg 1) 0)
        (arg_or (arg 2) 0) (arg_or (arg 3) 0) (arg_or (arg 4) 0)

module _ (kernel_end : ℕ) (freevm : Kmem → ℕ → Option Kmem) where
  -- One round of the loop of `wait`.
  unfoldable pub sys_wait : Kernel → ℕ → WaitRound
  unfolding wait
  sys_wait k me = wait kernel_end freevm k me 0

  unfoldable pub sys_kthread_join : (ℕ → Option ℕ) → Kernel → ℕ → WaitRound
  unfolding wait
  sys_kthread_join arg k me = wait kernel_end freevm k me (arg_or (arg 0) 0)

unfoldable pub sys_kill : (ℕ → Option ℕ) → Kernel → Outcome
unfolding kill
sys_kill arg k = elim (arg 0) [ none ↦ returns minus_one k | some pid ↦ kill k pid ]

unfoldable pub sys_getpid : Kernel → ℕ → ℕ
sys_getpid k me = (k.table me).pid

unfoldable pub sys_getppid : Kernel → ℕ → ℕ
sys_getppid k me = elim (k.table me).parent [ none ↦ 0 | some q ↦ (k.table q).pid ]

-- `growproc(n) < 0` is its answer -1.
unfoldable pub sys_sbrk :
    (allocuvm deallocuvm : Kmem → ℕ → ℕ → ℕ → ℕ × Kmem) → (ℕ → Option ℕ) → Kernel → ℕ → Outcome
unfolding growproc
sys_sbrk allocuvm deallocuvm arg k me = elim (arg 0) [
  | none ↦ returns minus_one k
  | some n ↦ elim (growproc allocuvm deallocuvm k me n) [
    | returns a k' ↦ returns (if a == 0 then (k.table me).sz else minus_one) k'
    | o ↦ o
  ]
]

-- One round of the loop of `sys_sleep`; `clock` is the channel `&ticks`.
unfoldable pub sys_sleep : Chan → ℕ → ℕ → ℕ → Kernel → ℕ → WaitRound
unfolding sleep_begin
sys_sleep clock ticks ticks0 n k me =
    if ltb ((ticks + 0x1_0000_0000 - ticks0) % 0x1_0000_0000) n
    then if (k.table me).killed == 0 then sleeps (sleep_begin clock k me) else answers minus_one k
    else answers 0 k

-- What `sys_kthread_saveretval` does, and `sys_kthread_exit` before it calls `exit`.
unfoldable pub save_retval : Kernel → ℕ → ℕ → Kernel
save_retval k me retval = set_proc k me (record (k.table me) { threadretval = retval })

unfoldable pub sys_kthread_saveretval : ℕ → (ℕ → Option ℕ) → Kernel → ℕ → Outcome
unfolding save_retval
sys_kthread_saveretval leftover arg k me = returns 0 (save_retval k me (arg_or (arg 0) leftover))

-- `sys_kthread_exit` up to its call of `exit`.
unfoldable pub sys_kthread_exit : (ℕ → Option ℕ) → Kernel → ℕ → Kernel
unfolding save_retval
sys_kthread_exit arg k me = save_retval k me (arg_or (arg 0) 0)

unfoldable pub sys_kthread_fetchretval : ℕ → (ℕ → Option ℕ) → Kernel → Outcome
unfolding getthreadretval
sys_kthread_fetchretval kernel_end arg k = getthreadretval kernel_end k (arg_or (arg 0) 0)

unfoldable pub sys_kthread_mutex_init : Kernel → ℕ → Outcome
unfolding mutex_init
sys_kthread_mutex_init k me = mutex_init k me

unfoldable pub sys_kthread_mutex_destroy : ℕ → (ℕ → Option ℕ) → Kernel → ℕ → Outcome
unfolding mutex_destroy
sys_kthread_mutex_destroy leftover arg k me = mutex_destroy k me (arg_or (arg 0) leftover)

unfoldable pub sys_kthread_mutex_lock : (ℕ → Option ℕ) → Kernel → ℕ → Outcome
unfolding mutex_lock
sys_kthread_mutex_lock arg k me = mutex_lock k me (arg_or (arg 0) 0)

unfoldable pub sys_kthread_mutex_unlock : (ℕ → Option ℕ) → Kernel → ℕ → Outcome
unfolding mutex_unlock
sys_kthread_mutex_unlock arg k me = mutex_unlock k me (arg_or (arg 0) 0)

unfoldable pub sys_kthread_cond_init : Kernel → ℕ → Outcome
unfolding condvar_init
sys_kthread_cond_init k me = condvar_init k me

unfoldable pub sys_kthread_cond_destroy : (ℕ → Option ℕ) → Kernel → ℕ → Outcome
unfolding condvar_destroy
sys_kthread_cond_destroy arg k me = condvar_destroy k me (arg_or (arg 0) 0)

unfoldable pub sys_kthread_cond_wait : (ℕ → Option ℕ) → Kernel → ℕ → Outcome
unfolding condvar_wait_begin
sys_kthread_cond_wait arg k me = condvar_wait_begin k me (arg_or (arg 0) 0) (arg_or (arg 1) 0)

unfoldable pub sys_kthread_cond_signal : (ℕ → Option ℕ) → Kernel → ℕ → Outcome
unfolding condvar_signal
sys_kthread_cond_signal arg k me = condvar_signal k me (arg_or (arg 0) 0)

unfoldable pub sys_kthread_cond_broadcast : (ℕ → Option ℕ) → Kernel → ℕ → Outcome
unfolding condvar_broadcast
sys_kthread_cond_broadcast arg k me = condvar_broadcast k me (arg_or (arg 0) 0)
