-- ===== src/Tests/Paging.antt =====
-- Page tables.
use mutex.Common.{◌+◌, ◌*◌, ◌≡◌, ◌⊎◌, refl, false, true, if◌then◌else◌, arith}
use mutex.Kalloc.{Kmem}
use mutex.Vm.{ptx, p2v, pde_of, is_present, is_user, maps, fails, remaps, mappages, uva2ka}
use mutex.Vm.Laws.{IsDirectory, table_of}
use mutex.Vm.Map.{uva2ka-mappages}

-- An empty directory at 0x80004000, and one free page.
abbrev some_memory : Kmem
some_memory = record { use_lock = true; freelist = 0x8000_5000; memory = λ a. 0 }

some_memory-IsDirectory : IsDirectory some_memory 0x8000_4000 0x1000
some_memory-IsDirectory = record {
  page = record { whole = refl; low = omega arith; high = omega arith };
  table = λ on. absurd (ground (arith, on));
  free = λ e. (record { whole = refl; low = omega arith; high = omega arith }, omega arith);
}

uva2ka-mappages_example :
    ((mappages some_memory 0x8000_4000 0x1000 4096 0x7000 6 ≡ fails some_memory)
      × (is_present (some_memory.memory (pde_of 0x8000_4000 0x1000)) ≡ false)
      × (some_memory.freelist ≡ 0))
    ⊎ ((mappages some_memory 0x8000_4000 0x1000 4096 0x7000 6 ≡ remaps)
        × (is_present
              (some_memory.memory (table_of some_memory 0x8000_4000 0x1000 + 4 * ptx 0x1000))
            ≡ true))
    ⊎ ((k' : Kmem) × (mappages some_memory 0x8000_4000 0x1000 4096 0x7000 6 ≡ maps k')
        × (uva2ka k' 0x8000_4000 0x1000 ≡ (if is_user 6 then p2v 0x7000 else 0)))
uva2ka-mappages_example =
    uva2ka-mappages some_memory 0x8000_4000 0x1000 0x7000 6 some_memory-IsDirectory refl
      (omega arith) refl (omega arith) (omega arith)
