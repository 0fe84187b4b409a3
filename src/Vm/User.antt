-- ===== src/Vm/User.antt =====
-- The pages of a process: deallocuvm, allocuvm, inituvm, freevm, setupkvm and copyuvm of vm.c. The
-- linker's symbols `end` and `data` are `kernel_end` and `kernel_data`.
pub mod Ends
use mutex.Common.{
  ℕ, zero, suc, ◌+◌, ◌-◌, ◌*◌, ◌/◌, ◌%◌, Bool, true, false, not, ◌&&◌, ◌||◌, Option, none, some,
  List, [], ◌∷◌, ltb, leb, ◌==◌, if◌then◌else◌, update,
}
use mutex.Spinlock.{kernbase}
use mutex.Kalloc.{Kmem, page_size, v2p, phystop, pgroundup, kalloc, kfree}
use mutex.Vm.{pte_addr, p2v, is_present, zeroed, walkpgdir, Mapping, maps, fails, remaps, mappages}

-- How a loop that frees pages ends: done, with a panic, or, on fuel, not at all.
pub data Freed : Type 0 where
  freed : Kmem → Freed
  stops : Freed
  unfinished : Freed

-- What a page's entry asks of the loop of `deallocuvm`.
pub data Entry : Type 0 where
  no_table : Entry
  not_present : Entry
  bad_page : Entry
  gives_back : Kmem → Entry

unfoldable pub free_entry : ℕ → Kmem → ℕ → ℕ → Entry
unfolding walkpgdir kfree
free_entry kernel_end k pgdir a =
    let pte = (walkpgdir k pgdir a false).0 in
    let pa = pte_addr (k.memory pte) in
    if pte == 0
    then no_table
    else if not (is_present (k.memory pte))
    then not_present
    else if pa == 0
    then bad_page
    else elim (kfree kernel_end k (p2v pa)) [
      | none ↦ bad_page
      | some k' ↦ gives_back (record k' { memory = update k'.memory pte 0 })
    ]

-- The loop of `deallocuvm` from `a` on, on fuel. Without a table it goes on 1024 pages further.
unfoldable pub dealloc_from : ℕ → ℕ → Kmem → ℕ → ℕ → ℕ → Freed
unfolding free_entry
dealloc_from kernel_end zero k pgdir a oldsz = if ltb a oldsz then unfinished else freed k
dealloc_from kernel_end (suc n) k pgdir a oldsz = elim (ltb a oldsz) [
  | false ↦ freed k
  | true ↦ elim (free_entry kernel_end k pgdir a) [
    | no_table ↦ dealloc_from kernel_end n k pgdir (a + 1023 * page_size + page_size) oldsz
    | not_present ↦ dealloc_from kernel_end n k pgdir (a + page_size) oldsz
    | bad_page ↦ stops
    | gives_back k' ↦ dealloc_from kernel_end n k' pgdir (a + page_size) oldsz
  ]
]

-- `deallocuvm`, for sizes up to KERNBASE. Its answer, `oldsz` if it has nothing to do and else `newsz`,
-- is left out.
unfoldable pub deallocuvm : ℕ → Kmem → ℕ → ℕ → ℕ → Freed
unfolding dealloc_from
deallocuvm kernel_end k pgdir oldsz newsz =
    if leb oldsz newsz
    then freed k
    else dealloc_from kernel_end (oldsz / page_size + 1) k pgdir (pgroundup newsz) oldsz

-- How `allocuvm` ends: with the size it answers, where 0 is a failure, or as a loop that frees.
pub data Grown : Type 0 where
  answers : ℕ → Kmem → Grown
  panics : Grown
  runs_on : Grown

unfoldable pub undo : ℕ → Kmem → ℕ → ℕ → ℕ → Grown
unfolding deallocuvm
undo kernel_end k pgdir newsz oldsz = elim (deallocuvm kernel_end k pgdir newsz oldsz) [
  | freed k' ↦ answers 0 k'
  | stops ↦ panics
  | unfinished ↦ runs_on
]

-- The loop of `allocuvm` from `a` on, on fuel. It does not look at what `mappages` answers.
unfoldable pub alloc_from : ℕ → ℕ → Kmem → ℕ → ℕ → ℕ → ℕ → Grown
unfolding undo kalloc mappages
alloc_from kernel_end zero k pgdir a oldsz newsz = if ltb a newsz then runs_on else answers newsz k
alloc_from kernel_end (suc n) k pgdir a oldsz newsz = elim (ltb a newsz) [
  | false ↦ answers newsz k
  | true ↦
      let (mem, k₁) = kalloc k in
      elim (mem == 0) [
        | true ↦ undo kernel_end k₁ pgdir newsz oldsz
        | false ↦
            elim (mappages (record k₁ { memory = zeroed mem k₁.memory }) pgdir a page_size (v2p mem)
              6) [
                | remaps ↦ panics
                | maps k₂ ↦ alloc_from kernel_end n k₂ pgdir (a + page_size) oldsz newsz
                | fails k₂ ↦ alloc_from kernel_end n k₂ pgdir (a + page_size) oldsz newsz
              ]
      ]
]

unfoldable pub allocuvm : ℕ → Kmem → ℕ → ℕ → ℕ → Grown
unfolding alloc_from
allocuvm kernel_end k pgdir oldsz newsz =
    if leb kernbase newsz
    then answers 0 k
    else if ltb newsz oldsz
    then answers oldsz k
    else alloc_from kernel_end (newsz / page_size + 1) k pgdir (pgroundup oldsz) oldsz newsz

-- The second loop of `freevm`, over the entries from `i` on, `n` of them.
unfoldable pub free_tables : ℕ → ℕ → Kmem → ℕ → ℕ → Freed
unfolding kfree
free_tables kernel_end zero k pgdir i = freed k
free_tables kernel_end (suc n) k pgdir i = elim (is_present (k.memory (pgdir + 4 * i))) [
  | false ↦ free_tables kernel_end n k pgdir (i + 1)
  | true ↦ elim (kfree kernel_end k (p2v (pte_addr (k.memory (pgdir + 4 * i))))) [
    | none ↦ stops
    | some k' ↦ free_tables kernel_end n k' pgdir (i + 1)
  ]
]

unfoldable pub freevm : ℕ → Kmem → ℕ → Freed
unfolding deallocuvm free_tables kfree
freevm kernel_end k pgdir =
    if pgdir == 0 then stops else elim (deallocuvm kernel_end k pgdir kernbase 0) [
      | stops ↦ stops
      | unfinished ↦ unfinished
      | freed k₁ ↦ elim (free_tables kernel_end 1024 k₁ pgdir 0) [
        | stops ↦ stops
        | unfinished ↦ unfinished
        | freed k₂ ↦ elim (kfree kernel_end k₂ pgdir) [ none ↦ stops | some k₃ ↦ freed k₃ ]
      ]
    ]
