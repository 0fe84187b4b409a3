-- ===== src/Proc/Life/Fork/Laws.antt =====
-- What a new thread and a new process get.
use mutex.Common.{
  ℕ, ◌+◌, ◌-◌, ◌%◌, ◌≤◌, ◌<◌, ◌≡◌, ◌≢◌, refl, ap, ◌∙◌, true, false, update, minus_one, Option, some,
  List, ◌∷◌, ◌==◌, if◌then◌else◌, arith, IsFirst, IsFirst-first,
}
use mutex.Kalloc.{Kmem, kalloc, kfree, is_page}
use mutex.Kalloc.Stack.{Holds, kalloc_lem, kfree_lem}
use mutex.Proc.Defs.{Proc, unused, runnable, is_unused, Kernel, nproc}
use mutex.Proc.Life.Defs.{allocproc, with_stack, give_back}
use mutex.Proc.Life.Fork.{System, thread_of, child_of, fork_thread, fork_process, fork_in, fork}

module _ (forkret trapret : ℕ) (k : Kernel) (n page : ℕ) (ps : List ℕ)
    (free : IsFirst (λ j. is_unused (k.table j).state) nproc n) (h : Holds k.kmem (page ∷ ps)) where
  allocproc-slot : allocproc forkret trapret k ≡ (some n, with_stack forkret trapret k n)
  unfolding allocproc
  allocproc-slot =
      let got = (kalloc_lem k.kmem).1 page ps h in
      let real : ((kalloc k.kmem).0 == 0) ≡ false = ground (arith, got.1) in
      rw (IsFirst-first (λ j. is_unused (k.table j).state) nproc n free, allocproc, real) refl

-- `fork` by a process or a thread with `ctflag` set makes a thread, if a slot `n` is unused and a
-- page is free. It answers the number `nextpid`. The thread in slot `n` is runnable and shares the
-- page table and the size of the caller; its parent is the caller, or the caller's parent if the
-- caller is itself a thread. It starts at the wrapper, on the given stack, where a null return
-- address, `arg1` and `arg2` lie from the stack pointer on. The caller's thread count is one more,
-- and no third slot changes.
pub fork-thread :
    {W : Type 0} (filedup : ℕ → W → Option W) (idup : ℕ → W → W) (kernel_end forkret trapret : ℕ)
    (copyuvm : Kmem → ℕ → ℕ → ℕ × Kmem) (s : System W)
    (me n page ustack thrdattr wrapper arg1 arg2 : ℕ) (ps : List ℕ)
    → IsFirst (λ j. is_unused (s.kernel.table j).state) nproc n
    → Holds s.kernel.kmem (page ∷ ps)
    → me ≢ n
    → (s.kernel.table me).ctflag ≢ 0
    → 12 ≤ ustack
    → ustack < 0x1_0000_0000
    → (s' : System W) × (fork filedup idup kernel_end forkret trapret copyuvm s me ustack thrdattr
          wrapper arg1 arg2
        ≡ some (s.kernel.nextpid, s'))
      × (let p = s.kernel.table me in
          let t = s'.kernel.table n in
          (t.state ≡ runnable)
          × (t.pid ≡ s.kernel.nextpid)
          × (t.type ≡ 1)
          × (t.pgdir ≡ p.pgdir)
          × (t.sz ≡ p.sz)
          × (t.parent ≡ (if p.type == 0 then some me else p.parent))
          × (t.tf.eip ≡ wrapper)
          × (t.tf.esp ≡ ustack - 12)
          × (s'.words t.tf.esp ≡ 0)
          × (s'.words (ustack - 8) ≡ arg1)
          × (s'.words (ustack - 4) ≡ arg2)
          × ((s'.kernel.table me).tcount ≡ (p.tcount + 1) % 0x1_0000_0000)
          × ((j : ℕ) → j ≢ me → j ≢ n → s'.kernel.table j ≡ s.kernel.table j))
unfolding fork fork_in fork_thread thread_of child_of with_stack
fork-thread {W} filedup idup kernel_end forkret trapret copyuvm s me n page ustack thrdattr wrapper
      arg1 arg2 ps free h ne ct lo hi =
    (
      made,
      rw (allocproc-slot forkret trapret s.kernel n page ps free h, fork)
          (rw (threaded, numbered) refl),
      (
        ground arith,
        ground arith,
        ground arith,
        ground arith,
        ground arith,
        ground arith,
        ground arith,
        ground arith,
        ground arith,
        ground arith,
        ground arith,
        ground arith,
        λ j a b. ground arith,
      ),
    )
  where
    threaded : (((with_stack forkret trapret s.kernel n).table me).ctflag == 0) ≡ false
    threaded = ground arith

    numbered : ((with_stack forkret trapret s.kernel n).table n).pid ≡ s.kernel.nextpid
    numbered = ground arith

    made : System W
    made =
        fork_thread (record s { kernel = with_stack forkret trapret s.kernel n }) me n ustack
          thrdattr wrapper arg1 arg2

fork_process-copyuvm_fails :
    {W : Type 0} (filedup : ℕ → W → Option W) (idup : ℕ → W → W) (kernel_end forkret trapret : ℕ)
    (copyuvm : Kmem → ℕ → ℕ → ℕ × Kmem) (s : System W) (me n : ℕ) (m m' : Kmem)
    → copyuvm s.kernel.kmem (s.kernel.table me).pgdir (s.kernel.table me).sz ≡ (0, m)
    → kfree kernel_end m (s.kernel.table n).kstack ≡ some m'
    → fork_process filedup idup kernel_end forkret trapret copyuvm s me n
      ≡ some (
        minus_one,
        record s {
          kernel = record s.kernel {
            table =
                update s.kernel.table n (record (s.kernel.table n) { kstack = 0; state = unused });
            kmem = m';
          };
        },
      )
unfolding fork_process give_back
fork_process-copyuvm_fails filedup idup kernel_end forkret trapret copyuvm s me n m m' e f =
    rw e (rw f refl)

-- `fork` by a process that may not make threads (`ctflag` is 0), when a slot `n` is unused and a
-- page is free, but `copyuvm` fails and leaves the allocator as `m`. It answers -1: the page of the
-- new slot goes back, the slot is unused and without a stack as before, and no other slot changes.
-- The number that the slot had taken stays used up.
fork-copyuvm_fails :
    {W : Type 0} (filedup : ℕ → W → Option W) (idup : ℕ → W → W) (kernel_end forkret trapret : ℕ)
    (copyuvm : Kmem → ℕ → ℕ → ℕ × Kmem) (s : System W)
    (me n page ustack thrdattr wrapper arg1 arg2 : ℕ) (ps : List ℕ) (m : Kmem)
    → IsFirst (λ j. is_unused (s.kernel.table j).state) nproc n
    → Holds s.kernel.kmem (page ∷ ps)
    → me ≢ n
    → (s.kernel.table me).ctflag ≡ 0
    → copyuvm (kalloc s.kernel.kmem).1 (s.kernel.table me).pgdir (s.kernel.table me).sz ≡ (0, m)
    → Holds m ps
    → 0 < kernel_end
    → is_page kernel_end page ≡ true
    → (s' : System W) × (fork filedup idup kernel_end forkret trapret copyuvm s me ustack thrdattr
          wrapper arg1 arg2
        ≡ some (minus_one, s'))
      × Holds s'.kernel.kmem (page ∷ ps)
      × ((s'.kernel.table n).state ≡ unused)
      × ((s'.kernel.table n).kstack ≡ 0)
      × ((j : ℕ) → j ≢ n → s'.kernel.table j ≡ s.kernel.table j)
      × (s'.kernel.nextpid ≡ (s.kernel.nextpid + 1) % 0x1_0000_0000)
unfolding fork fork_in with_stack
fork-copyuvm_fails {W} filedup idup kernel_end forkret trapret copyuvm s me n page ustack thrdattr
      wrapper arg1 arg2 ps m free h ne ct fails held pos ok =
    let (m', freed, holds) = (kfree_lem kernel_end page m ps pos held).0 ok (h.pages.2) in
    (
      left m',
      rw (allocproc-slot forkret trapret s.kernel n page ps free h, fork)
          (rw process (
            fork_process-copyuvm_fails filedup idup kernel_end forkret trapret copyuvm
              (record s { kernel = with_stack forkret trapret s.kernel n }) me n m m'
              (ap (λ (p : Proc). copyuvm (kalloc s.kernel.kmem).1 p.pgdir p.sz) mine ∙ fails)
              (ap (kfree kernel_end m) stack ∙ freed))),
      holds,
      ground arith,
      ground arith,
      λ j o. ground arith,
      refl,
    )
  where
    k : Kernel
    k = with_stack forkret trapret s.kernel n

    process : ((k.table me).ctflag == 0) ≡ true
    process = ground arith

    mine : k.table me ≡ s.kernel.table me
    mine = ground arith

    stack : (k.table n).kstack ≡ page
    stack = ground (arith, ((kalloc_lem s.kernel.kmem).1 page ps h).0)

    left : Kmem → System W
    left m' = record s {
      kernel = record k {
        table = update k.table n (record (k.table n) { kstack = 0; state = unused });
        kmem = m';
      };
    }
