-- ===== src/Proc/Life/Defs.antt =====
-- The operations. `kernel_end` is the linker's symbol `end`; `forkret` and `trapret` are code
-- addresses; `freevm` stands for the function of vm.c, which gives back the pages of a process.
use mutex.Common.{
  ℕ, zero, suc, ◌+◌, ◌-◌, ◌%◌, Bool, true, false, not, ◌&&◌, ◌||◌, Option, none, some, ◌==◌,
  if◌then◌else◌, update, each, first, minus_one, is_positive,
}
use mutex.Kalloc.{Kmem, kalloc, kfree, page_size}
use mutex.Proc.Defs.{
  unused, embryo, zombie, is_unused, is_zombie, Chan, null, of_proc, Mutex, Condvar, Proc, Kernel,
  nproc, nmutx, ncondvar, set_proc, Outcome, returns, fault,
}
use mutex.Proc.Sched.{wakeup1, yield_begin, sleep_begin}

abbrev pub trapframe_size : ℕ
trapframe_size = 76

abbrev pub context_size : ℕ
context_size = 20

-- The kernel stack at `page`: trap frame on top, then the return address, then the context.
abbrev pub on_stack : ℕ → ℕ → ℕ → Proc → Proc
on_stack forkret trapret page p = record p {
  kstack = page;
  tf_addr = page + page_size - trapframe_size;
  return_addr = trapret;
  context_addr = page + page_size - trapframe_size - 4 - context_size;
  context = record { edi = 0; esi = 0; ebx = 0; ebp = 0; eip = forkret };
}

-- `p->state = EMBRYO; p->pid = nextpid++;`
abbrev pub embryo_at : Kernel → ℕ → Kernel
embryo_at k i = record k {
  table = update k.table i (record (k.table i) { state = embryo; pid = k.nextpid });
  nextpid = (k.nextpid + 1) % 0x1_0000_0000;
}

-- With no page for its stack the slot is free again; `nextpid` stays advanced.
unfoldable pub without_stack : Kernel → ℕ → Kernel
without_stack k i =
    let e = embryo_at k i in set_proc e i (record (e.table i) { kstack = 0; state = unused })

unfoldable pub with_stack : ℕ → ℕ → Kernel → ℕ → Kernel
with_stack forkret trapret k i =
    let e = embryo_at k i in
    let (page, kmem') = kalloc e.kmem in
    record e { table = update e.table i (on_stack forkret trapret page (e.table i)); kmem = kmem' }

unfoldable pub allocproc : ℕ → ℕ → Kernel → Option ℕ × Kernel
unfolding first without_stack with_stack
allocproc forkret trapret k = elim (first (λ i. is_unused (k.table i).state) nproc) [
  | none ↦ (none, k)
  | some i ↦
      if (kalloc k.kmem).0 == 0
      then (none, without_stack k i)
      else (some i, with_stack forkret trapret k i)
]

abbrev pub free_mutex : Mutex → Mutex
free_mutex m = record m { lock = record m.lock { id = minus_one } }

abbrev pub free_condvar : Condvar → Condvar
free_condvar c = record c { id = minus_one }

-- The assignments that give a slot back, in the three places where they stand.
unfoldable pub reset : Proc → Proc
reset p = record p {
  state = unused;
  pid = 0;
  parent = none;
  name = update p.name 0 0;
  killed = 0;
  wrapper = 0;
  ctflag = 0;
  ustack = 0;
  type = 0;
  threadattr = 0;
  threadretval = 0;
  chan = null;
  kstack = 0;
  mutexlist = each nmutx free_mutex p.mutexlist;
  condvarlist = each ncondvar free_condvar p.condvarlist;
}

abbrev pub same_parent : Option ℕ → Option ℕ → Bool
same_parent none none = true
same_parent (some i) (some j) = i == j
same_parent _ _ = false

-- `p->parent->tcount -= 1`
abbrev pub one_thread_less : Kernel → ℕ → Kernel
one_thread_less k q =
    set_proc k q
      (record (k.table q) { tcount = ((k.table q).tcount + 0xffff_ffff) % 0x1_0000_0000 })

-- Slot `i` becomes `p`, and its kernel stack goes back to the allocator; `none` is a panic.
unfoldable pub give_back : ℕ → Kernel → ℕ → Proc → Option Kernel
give_back kernel_end k i p = elim (kfree kernel_end k.kmem (k.table i).kstack) [
  | none ↦ none
  | some kmem' ↦ some (record k { table = update k.table i p; kmem = kmem' })
]

unfoldable pub cleanupzombiethreads : ℕ → Kernel → ℕ → Option Kernel
unfolding first give_back
cleanupzombiethreads kernel_end k me =
    elim (first
      (λ i.
        not ((k.table i).type == 0)
        && is_zombie (k.table i).state
        && same_parent (k.table i).parent (some me))
      nproc) [
        | none ↦ some k
        | some i ↦ let k' = one_thread_less k me in give_back kernel_end k' i (reset (k'.table i))
      ]

-- The part of `getthreadretval` that gives slot `i`, a thread of `q`, back.
unfoldable pub release_thread : ℕ → Kernel → ℕ → ℕ → Outcome
unfolding give_back
release_thread kernel_end k i q =
    let k' = one_thread_less k q in
    elim (give_back kernel_end k' i (record (reset (k'.table i)) { pgdir = 0 })) [
      | none ↦ fault
      | some k'' ↦ returns (k.table i).threadretval k''
    ]

unfoldable pub getthreadretval : ℕ → Kernel → ℕ → Outcome
unfolding first
getthreadretval kernel_end k tid =
    elim (first (λ i. not ((k.table i).type == 0) && (k.table i).pid == tid) nproc) [
      | none ↦ returns minus_one k
      | some i ↦
          if is_positive (k.table i).threadattr
          then returns (k.table i).threadretval
              (set_proc k i (record (k.table i) { threadattr = 0; threadretval = 0 }))
          else elim (k.table i).parent [ none ↦ fault | some q ↦ release_thread kernel_end k i q ]
    ]

-- The tests of the loop of `wait`: a child of the caller, or of its parent if it is a thread, and
-- the one asked for, if one is.
unfoldable pub waits_for : Kernel → ℕ → ℕ → ℕ → Bool
waits_for k me tid i =
    let p = k.table i in
    let proc = k.table me in
    not (
      not (same_parent p.parent (some me)) && proc.type == 0
      || not (proc.type == 0) && not (same_parent p.parent proc.parent))
    && (tid == 0 || tid == p.pid)

pub data Scan : Type 0 where
  found : ℕ → Scan
  finished : Bool → Scan

-- The loop of `wait`, `n` slots from `i` on, with `havekids`.
unfoldable pub scan : Kernel → ℕ → ℕ → ℕ → ℕ → Bool → Scan
scan k me tid zero i havekids = finished havekids
scan k me tid (suc n) i havekids =
    let rest = scan k me tid n (i + 1) (havekids || waits_for k me tid i) in
    if waits_for k me tid i && is_zombie (k.table i).state then found i else rest

-- One round of `wait`: an answer; or the caller yields, or sleeps, and another round follows.
pub data WaitRound : Type 0 where
  answers : ℕ → Kernel → WaitRound
  yields : Kernel → WaitRound
  sleeps : Kernel → WaitRound
  panics : WaitRound

module _ (kernel_end : ℕ) (freevm : Kmem → ℕ → Option Kmem) where
  -- The zombie in slot `i`: a process is given back, a thread is left for `getthreadretval`.
  unfoldable pub reap : Kernel → ℕ → WaitRound
  unfolding give_back
  reap k i =
      if (k.table i).type == 0
      then elim (freevm k.kmem (k.table i).pgdir) [
        | none ↦ panics
        | some kmem' ↦
            elim (give_back kernel_end (record k { kmem = kmem' }) i
              (record (reset (k.table i)) { pgdir = 0; tcount = 0 })) [
                | none ↦ panics
                | some k' ↦ answers (k.table i).pid k'
              ]
      ]
      else answers (k.table i).pid k

  unfoldable pub wait : Kernel → ℕ → ℕ → WaitRound
  unfolding scan reap
  wait k me tid = elim (scan k me tid nproc 0 false) [
    | found i ↦ reap k i
    | finished havekids ↦
        if not havekids || not ((k.table me).killed == 0)
        then answers minus_one k
        else if tid == 0
        then sleeps (sleep_begin (of_proc me) k me)
        else yields (yield_begin k me)
  ]

-- `wakeup1` of a process, which may be the null pointer.
abbrev pub chan_of_parent : Option ℕ → Chan
chan_of_parent none = null
chan_of_parent (some q) = of_proc q

-- The body of the loop of `exit` that hands the caller's children to `initproc`.
abbrev pub pass_child : ℕ → ℕ → Kernel → Kernel
pass_child me i k =
    let k' = set_proc k i (record (k.table i) { parent = some k.initproc }) in
    if not ((k.table i).type == 1) && same_parent (k.table i).parent (some me)
    then (if is_zombie (k.table i).state then wakeup1 (of_proc k.initproc) k' else k')
    else k

-- That loop, `n` slots from `i` on.
unfoldable pub pass_children : ℕ → ℕ → ℕ → Kernel → Kernel
pass_children me zero i k = k
pass_children me (suc n) i k = pass_children me n (i + 1) (pass_child me i k)

-- `exit` behind the closing of the files, up to the loop on `tcount`.
unfoldable pub exit_orphans : Kernel → ℕ → Kernel
unfolding pass_children
exit_orphans k me =
    let k' = if (k.table me).type == 0 then pass_children me nproc 0 k else k in
    if not ((k'.table me).type == 0) && not ((k'.table me).threadattr == 0)
    then set_proc k' me (record (k'.table me) { pgdir = 0 })
    else k'

-- `exit` once `tcount` is 0: the parent is woken, and the caller is a zombie.
unfoldable pub exit_finish : Kernel → ℕ → Kernel
exit_finish k me =
    let k' = wakeup1 (chan_of_parent (k.table me).parent) k in
    set_proc k' me (record (k'.table me) { state = zombie })

-- One round of the loop of `exit` on `tcount`: the caller is a zombie, or it has yielded.
pub data Exit : Type 0 where
  dead : Kernel → Exit
  yielded : Kernel → Exit
  broken : Exit

unfoldable pub exit_round : ℕ → Kernel → ℕ → Exit
unfolding exit_finish
exit_round kernel_end k me =
    if (k.table me).tcount == 0
    then dead (exit_finish k me)
    else elim (cleanupzombiethreads kernel_end k me) [
      | none ↦ broken
      | some k' ↦ yielded (yield_begin k' me)
    ]
