-- ===== src/Proc/Sched.antt =====
-- wakeup1, wakeup, kill, sleep, modified_sleep, yield, sched and scheduler of proc.c.
pub mod Laws
use mutex.Common.{
  ℕ, zero, suc, ◌+◌, ◌%◌, Bool, true, false, not, ◌&&◌, ◌||◌, Option, none, some, List, [], ◌∷◌,
  ◌==◌, if◌then◌else◌, update, each, first, minus_one,
}
use mutex.Spinlock.{Spinlock, Cpu, holding}
use mutex.Proc.Store.{set_mutex, set_locked}
use mutex.Proc.Defs.{
  ProcState, sleeping, runnable, running, is_sleeping, is_runnable, is_running, Chan, null,
  same_chan, Mutex, Proc, Kernel, nproc, set_proc, Outcome, returns, spins, fault,
}

-- The body of the loop of `wakeup1`.
abbrev pub wake_one : Chan → Proc → Proc
wake_one chan p =
    if is_sleeping p.state && same_chan p.chan chan then record p { state = runnable } else p

unfoldable pub wakeup1 : Chan → Kernel → Kernel
wakeup1 chan k = record k { table = each nproc (wake_one chan) k.table }

unfoldable pub wakeup : Chan → Kernel → Kernel
unfolding wakeup1
wakeup chan k = wakeup1 chan k

abbrev pub kill_one : Proc → Proc
kill_one p = record p { killed = 1; state = if is_sleeping p.state then runnable else p.state }

unfoldable pub kill : Kernel → ℕ → Outcome
unfolding first
kill k pid = elim (first (λ i. (k.table i).pid == pid) nproc) [
  | none ↦ returns minus_one k
  | some i ↦ returns 0 (set_proc k i (kill_one (k.table i)))
]

-- `sched`, up to the switch: the checks that panic, and the saved `intena`.
unfoldable pub sched : Spinlock → Cpu → Proc → Option Bool
unfolding holding
sched ptable_lock c p =
    if not (holding ptable_lock c)
    then none
    else if not (c.ncli == 1)
    then none
    else if is_running p.state
    then none
    else if c.interrupts
    then none
    else some c.intena

-- `yield` up to the switch; after it nothing but `release` is left.
unfoldable pub yield_begin : Kernel → ℕ → Kernel
yield_begin k me = set_proc k me (record (k.table me) { state = runnable })

-- `sleep` up to the switch, and from the switch back to the end.
unfoldable pub sleep_begin : Chan → Kernel → ℕ → Kernel
sleep_begin chan k me = set_proc k me (record (k.table me) { chan = chan; state = sleeping })

unfoldable pub sleep_end : Kernel → ℕ → Kernel
sleep_end k me = set_proc k me (record (k.table me) { chan = null })

-- `modified_sleep` up to the switch, its lock that of mutex `i` of process `q`: under
-- `ptable.lock` the mutex is given up and the process goes to sleep.
unfoldable pub modified_sleep_begin : Chan → Kernel → ℕ → ℕ → ℕ → Kernel
unfolding sleep_begin
modified_sleep_begin chan k me q i =
    sleep_begin chan (set_mutex k q i (set_locked ((k.table q).mutexlist i) 0)) me

-- One round of the loop at the end of `modified_sleep`, after `sleep_end`: the mutex is taken
-- back, or another round is due.
unfoldable pub modified_sleep_relock : Kernel → ℕ → ℕ → Outcome
modified_sleep_relock k q i =
    if ((k.table q).mutexlist i).lock.locked == 0
    then returns 0 (set_mutex k q i (set_locked ((k.table q).mutexlist i) 1))
    else spins

-- One pass of `scheduler` over the table, from `i` on, and the processes that it ran, in order.
-- `run p` is what happens from the switch to process `p` until `p` switches back.
unfoldable pub pass_from : (ℕ → Kernel → Kernel) → ℕ → ℕ → Kernel → Kernel × List ℕ
pass_from run zero i k = (k, [])
pass_from run (suc n) i k = elim (is_runnable (k.table i).state) [
  | false ↦ pass_from run n (i + 1) k
  | true ↦
      let (k', ran) =
        pass_from run n (i + 1) (run i (set_proc k i (record (k.table i) { state = running }))) in
      (k', i ∷ ran)
]

unfoldable pub scheduler_pass : (ℕ → Kernel → Kernel) → Kernel → Kernel × List ℕ
unfolding pass_from
scheduler_pass run k = pass_from run nproc 0 k
