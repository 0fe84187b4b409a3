-- ===== src/Tests/Calls.antt =====
-- Making a thread, and its return value.
use mutex.Common.{ℕ, ◌≡◌, ◌≢◌, refl, not, ◌&&◌, some, [], ◌∷◌, ◌==◌, arith, IsFirst}
use mutex.Kalloc.Stack.{Holds, kalloc_lem}
use mutex.Kalloc.{kalloc, Kmem, kfree}
use mutex.Proc.{running, runnable, is_unused, nproc}
use mutex.Proc.Life.Fork.{System, fork}
use mutex.Proc.Life.Fork.Laws.{fork-thread}
use mutex.Tests.Data.{owner, thread, kernel_with, kernel, two_pages, two_pages-Holds, kernel_end}

-- The process in slot 0 makes a thread.
abbrev creating : System ℕ
creating = record {
  kernel = kernel_with (record owner { ctflag = 1 }) (thread 2 running) (thread 3 runnable);
  words = λ _. 0;
  files = 0;
}

slot_3 : IsFirst (λ j. is_unused (creating.kernel.table j).state) nproc 3
slot_3 = record { below = omega arith; passes = refl; earlier_fail = λ j lt. ground arith }

fork-thread_example :
    (s' : System ℕ) × (fork
        (λ f w. some w)
        (λ d w. w)
        kernel_end
        500
        600
        (λ m p z. (0, m))
        creating
        0
        8192
        0
        4000
        5
        6
      ≡ some (4, s'))
    × (let p = creating.kernel.table 0 in
        let t = s'.kernel.table 3 in
        (t.state ≡ runnable)
        × (t.pid ≡ 4)
        × (t.type ≡ 1)
        × (t.pgdir ≡ p.pgdir)
        × (t.sz ≡ p.sz)
        × (t.parent ≡ some 0)
        × (t.tf.eip ≡ 4000)
        × (t.tf.esp ≡ 8180)
        × (s'.words t.tf.esp ≡ 0)
        × (s'.words 8184 ≡ 5)
        × (s'.words 8188 ≡ 6)
        × ((s'.kernel.table 0).tcount ≡ 3)
        × ((j : ℕ) → j ≢ 0 → j ≢ 3 → s'.kernel.table j ≡ creating.kernel.table j))
fork-thread_example =
    fork-thread (λ f w. some w) (λ d w. w) kernel_end 500 600 (λ m p z. (0, m)) creating 0 3
      0x8040_1000 8192 0 4000 5 6 (0x8040_0000 ∷ []) slot_3 two_pages-Holds (λ e. omega arith)
      (λ e. omega arith) (omega arith) (omega arith)

-- The process without `ctflag`, while `copyuvm` fails.
abbrev copying : System ℕ
copying = record { kernel = kernel; words = λ _. 0; files = 0 }

free_3 : IsFirst (λ j. is_unused (copying.kernel.table j).state) nproc 3
free_3 = record { below = omega arith; passes = refl; earlier_fail = λ j lt. ground arith }

one_page : Holds (kalloc two_pages).1 (0x8040_0000 ∷ [])
one_page = ((kalloc_lem two_pages).1 0x8040_1000 (0x8040_0000 ∷ []) two_pages-Holds).2

frees : (m : Kmem) × (kfree kernel_end two_pages 0x8060_0000 ≡ some m)
unfolding kfree
frees = (_, refl)

only_2 :
    IsFirst
      (λ j. not ((kernel.table j).type == 0) && (kernel.table j).pid == (kernel.table 1).pid)
      nproc
      1
only_2 = record { below = omega arith; passes = refl; earlier_fail = λ j lt. ground arith }
