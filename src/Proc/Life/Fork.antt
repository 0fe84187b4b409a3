-- ===== src/Proc/Life/Fork.antt =====
-- fork and growproc of proc.c. `copyuvm`, `allocuvm` and `deallocuvm` stand for the functions of
-- vm.c, `filedup` and `idup` for those of file.c and fs.c on a state `W` of their own; `words` is
-- the memory of the calling process. One call runs as a whole.
pub mod Laws
use mutex.Common.{
  ℕ, zero, suc, ◌+◌, ◌-◌, ◌%◌, Bool, true, false, not, ◌&&◌, Option, none, some, ltb, ◌==◌,
  if◌then◌else◌, update, each, minus_one, is_positive,
}
use mutex.Kalloc.{Kmem, kfree}
use mutex.Cstring.{Memory, safestrcpy}
use mutex.Proc.Defs.{
  unused, runnable, Mutex, Condvar, TrapFrame, Proc, Kernel, nmutx, ncondvar, maxthrds, nofile,
  set_proc, Outcome, returns, fault,
}
use mutex.Proc.Life.Defs.{allocproc, give_back}

pub record System (W : Type 0) : Type 0 where
  pub kernel : Kernel
  pub words : ℕ → ℕ
  pub files : W

abbrev pub blank_mutex : Mutex → Mutex
blank_mutex m = record { lock = record m.lock { id = minus_one }; lockingthread = minus_one }

abbrev pub blank_condvar : Condvar → Condvar
blank_condvar c = record {
  id = minus_one;
  waitingthreadlist = each maxthrds (λ _. minus_one) c.waitingthreadlist;
}

-- The two name arrays in one memory, at 0 and at 16.
abbrev pub side_by_side : (ℕ → ℕ) → (ℕ → ℕ) → Memory
side_by_side to from a = if ltb a 16 then to a else from (a - 16)

-- `safestrcpy(np->name, proc->name, sizeof(proc->name))`
unfoldable pub copy_name : (ℕ → ℕ) → (ℕ → ℕ) → ℕ → ℕ
copy_name to from i = if ltb i 16 then safestrcpy (side_by_side to from) 0 16 16 i else to i

-- What `fork` does to the new slot `np` for a thread as for a process, from the caller `p`.
unfoldable pub child_of : Proc → Proc → Option ℕ → Proc
unfolding copy_name
child_of np p parent = record np {
  mutexlist = each nmutx blank_mutex np.mutexlist;
  condvarlist = each ncondvar blank_condvar np.condvarlist;
  sz = p.sz;
  parent = parent;
  tf = record p.tf { eax = 0 };
  ofile = λ i. if ltb i nofile && not (p.ofile i == 0) then p.ofile i else np.ofile i;
  cwd = p.cwd;
  name = copy_name np.name p.name;
  state = runnable;
}

-- `*(--sp)` three times, from `ustack` down.
abbrev pub push_args : (ℕ → ℕ) → ℕ → ℕ → ℕ → ℕ → ℕ
push_args words ustack arg1 arg2 =
    update
      (update (update words ((ustack + 0xffff_fffc) % 0x1_0000_0000) arg2)
        ((ustack + 0xffff_fff8) % 0x1_0000_0000) arg1)
      ((ustack + 0xffff_fff4) % 0x1_0000_0000) 0

-- The thread that the caller `p`, in slot `me`, makes of the new slot `np`.
unfoldable pub thread_of : Proc → Proc → ℕ → ℕ → ℕ → ℕ → Proc
unfolding child_of
thread_of np p me ustack thrdattr wrapper =
    let c = child_of np p (if not (p.type == 0) then p.parent else some me) in
    record c {
      pgdir = p.pgdir;
      type = 1;
      threadattr = thrdattr;
      threadretval = minus_one;
      tf = record c.tf { eip = wrapper; esp = (ustack + 0xffff_fff4) % 0x1_0000_0000 };
    }

-- The process.
unfoldable pub process_of : Proc → Proc → ℕ → ℕ → Proc
unfolding child_of
process_of np p me pgdir = record (child_of np p (some me)) { pgdir = pgdir; type = 0; tcount = 0 }

-- `fork` for a thread, in slot `n`.
unfoldable pub fork_thread : {W : Type 0} → System W → ℕ → ℕ → ℕ → ℕ → ℕ → ℕ → ℕ → System W
unfolding thread_of
fork_thread s me n ustack thrdattr wrapper arg1 arg2 =
    let p = s.kernel.table me in
    record s {
      kernel =
          set_proc
            (set_proc s.kernel me
              (record p { ustack = ustack; tcount = (p.tcount + 1) % 0x1_0000_0000 }))
            n (thread_of (s.kernel.table n) p me ustack thrdattr wrapper);
      words = push_args s.words ustack arg1 arg2;
    }

module _ {W : Type 0} (filedup : ℕ → W → Option W) (idup : ℕ → W → W) where
  -- The loop over `ofile`, `n` entries from `i` on; `none` is the panic of `filedup`.
  unfoldable pub dup_files : (ℕ → ℕ) → ℕ → ℕ → W → Option W
  dup_files ofile zero i w = some w
  dup_files ofile (suc n) i w =
      let rest = dup_files ofile n (i + 1) w in
      if ofile i == 0
      then rest
      else elim (filedup (ofile i) w) [ none ↦ none | some w' ↦ dup_files ofile n (i + 1) w' ]

  module _ (kernel_end forkret trapret : ℕ) (copyuvm : Kmem → ℕ → ℕ → ℕ × Kmem) where
    -- `fork` for a process, in slot `n`.
    unfoldable pub fork_process : System W → ℕ → ℕ → Option (ℕ × System W)
    unfolding process_of dup_files give_back
    fork_process s me n =
        let p = s.kernel.table me in
        let (pgdir, kmem') = copyuvm s.kernel.kmem p.pgdir p.sz in
        let k = record s.kernel { kmem = kmem' } in
        if pgdir == 0
        then elim (give_back kernel_end k n (record (k.table n) { kstack = 0; state = unused })) [
          | none ↦ none
          | some k' ↦ some (minus_one, record s { kernel = k' })
        ]
        else elim (dup_files p.ofile nofile 0 s.files) [
          | none ↦ none
          | some w ↦ some (
            (k.table n).pid,
            record s {
              kernel = set_proc k n (process_of (k.table n) p me pgdir);
              files = idup p.cwd w;
            },
          )
        ]

    -- `fork` behind `allocproc`, which has answered `slot`.
    unfoldable pub fork_in :
        System W → ℕ → ℕ → ℕ → ℕ → ℕ → ℕ → Option ℕ × Kernel → Option (ℕ × System W)
    unfolding fork_thread fork_process
    fork_in s me ustack thrdattr wrapper arg1 arg2 (slot, k) =
        let s' = record s { kernel = k } in
        elim slot [
          | none ↦ some (minus_one, s')
          | some n ↦
              if (k.table me).ctflag == 0
              then fork_process s' me n
              else some ((k.table n).pid, fork_thread s' me n ustack thrdattr wrapper arg1 arg2)
        ]

    -- `none` is a panic.
    unfoldable pub fork : System W → ℕ → ℕ → ℕ → ℕ → ℕ → ℕ → Option (ℕ × System W)
    unfolding fork_in allocproc
    fork s me ustack thrdattr wrapper arg1 arg2 =
        fork_in s me ustack thrdattr wrapper arg1 arg2 (allocproc forkret trapret s.kernel)

-- `growproc` behind the change of the page table to `sz` bytes, which the flag says was a failure.
unfoldable pub set_size : Kernel → ℕ → ℕ → Outcome
set_size k me sz =
    let k' = set_proc k me (record (k.table me) { sz = sz }) in
    if (k.table me).type == 0 then returns 0 k' else elim (k.table me).parent [
      | none ↦ fault
      | some q ↦
          let k₁ = set_proc k q (record (k.table q) { sz = sz }) in
          returns 0 (set_proc k₁ me (record (k₁.table me) { sz = sz }))
    ]

module _ (allocuvm deallocuvm : Kmem → ℕ → ℕ → ℕ → ℕ × Kmem) where
  unfoldable pub growproc : Kernel → ℕ → ℕ → Outcome
  unfolding set_size
  growproc k me n =
      let p = k.table me in
      let to = (p.sz + n) % 0x1_0000_0000 in
      if n == 0
      then set_size k me p.sz
      else let (sz, kmem') =
          if is_positive n
          then allocuvm k.kmem p.pgdir p.sz to
          else deallocuvm k.kmem p.pgdir p.sz to in
        if sz == 0
        then returns minus_one (record k { kmem = kmem' })
        else set_size (record k { kmem = kmem' }) me sz
