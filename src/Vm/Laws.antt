-- ===== src/Vm/Laws.antt =====
-- What walkpgdir and mappages do to a page table.
use mutex.Common.{
  ℕ, ◌+◌, ◌*◌, ◌%◌, ◌<◌, ◌≤◌, ◌≡◌, ◌≢◌, ◌⊎◌, inl, inr, refl, ap, true, false, ◌==◌, update, arith,
  Bool-cases, ℕ_discrete,
}
use mutex.Spinlock.{kernbase}
use mutex.Kalloc.{Kmem, v2p, kalloc}
use mutex.Vm.Bits.{or_word, or_word-page}
use mutex.Vm.{ptx, pte_addr, p2v, pde_of, is_present, zeroed, walkpgdir}

-- A page of the kernel's memory.
pub record IsKernelPage (v : ℕ) : Type 0 where
  pub whole : v % 4096 ≡ 0
  pub low : kernbase ≤ v
  pub high : v + 4096 ≤ 0x1_0000_0000

-- The table that an address's directory entry names.
abbrev pub table_of : Kmem → ℕ → ℕ → ℕ
table_of k pgdir va = p2v (pte_addr (k.memory (pde_of pgdir va)))

-- The directory is a page, and so are the table of `va`, if there is one, and the next free page; the
-- two are not the directory.
pub record IsDirectory (k : Kmem) (pgdir va : ℕ) : Type 0 where
  pub page : IsKernelPage pgdir
  pub table :
      is_present (k.memory (pde_of pgdir va)) ≡ true
      → IsKernelPage (table_of k pgdir va) × (table_of k pgdir va ≢ pgdir)
  pub free : k.freelist ≢ 0 → IsKernelPage k.freelist × (k.freelist ≢ pgdir)

-- The memory after a free page has become the table of `va`.
abbrev with_table : Kmem → ℕ → ℕ → Kmem
with_table k pgdir va = record k {
  freelist = k.memory k.freelist;
  memory = update (zeroed k.freelist k.memory) (pde_of pgdir va) (or_word (v2p k.freelist) 7);
}

module _ (k : Kmem) (pgdir va : ℕ) (dir : IsKernelPage pgdir) (page : IsKernelPage k.freelist)
    (apart : k.freelist ≢ pgdir) where
  entry : (with_table k pgdir va).memory (pde_of pgdir va) ≡ v2p k.freelist + 7
  entry =
      let word : or_word (v2p k.freelist) 7 ≡ v2p k.freelist + 7 =
        or_word-page (v2p k.freelist) 7 (omega (arith, page.whole, page.low)) (omega arith)
          (omega arith) in
      ground (arith, word)

  entry-is_present : is_present ((with_table k pgdir va).memory (pde_of pgdir va)) ≡ true
  entry-is_present = rw entry (ground (arith, page.whole, page.low, page.high))

  table_of-with_table : table_of (with_table k pgdir va) pgdir va ≡ k.freelist
  table_of-with_table = rw entry (omega (arith, page.whole, page.low, page.high))

  table_empty : (x : ℕ) → x < 1024 → (with_table k pgdir va).memory (k.freelist + 4 * x) ≡ 0
  table_empty x lt = ground (arith, page.whole, page.low, dir.whole)

-- `walkpgdir` that may allocate: it answers 0 exactly if there is no table and no free page; else the
-- address is that of the entry in the table, which the directory now has, and a walk that may not
-- allocate finds it. A new table is empty.
pub walkpgdir_lem :
    (k : Kmem) (pgdir va : ℕ)
    → IsDirectory k pgdir va
    → ((walkpgdir k pgdir va true ≡ (0, k))
        × (is_present (k.memory (pde_of pgdir va)) ≡ false)
        × (k.freelist ≡ 0))
      ⊎ ((table : ℕ) × (k' : Kmem) × (walkpgdir k pgdir va true ≡ (table + 4 * ptx va, k'))
          × IsKernelPage table
          × (table ≢ pgdir)
          × (walkpgdir k' pgdir va false ≡ (table + 4 * ptx va, k'))
          × (is_present (k'.memory (pde_of pgdir va)) ≡ true)
          × (table_of k' pgdir va ≡ table)
          × ((is_present (k.memory (pde_of pgdir va)) ≡ true × (k' ≡ k))
              ⊎ ((table ≡ k.freelist) × ((x : ℕ) → x < 1024 → k'.memory (table + 4 * x) ≡ 0))))
unfolding walkpgdir kalloc
walkpgdir_lem k pgdir va v = elim (Bool-cases (is_present (k.memory (pde_of pgdir va)))) [
  | inl on ↦
      let (page, apart) = v.table on in
      inr (table_of k pgdir va, k, rw on refl, page, apart, rw on refl, on, refl, inl (on, refl))
  | inr off ↦ elim (ℕ_discrete k.freelist 0) [
    | yes empty ↦
        let null : k.freelist == 0 ≡ true = ground arith in inl (rw (off, null) refl, off, empty)
    | no some_free ↦
        let (page, apart) = v.free some_free in
        let used : k.freelist == 0 ≡ false = ground arith in
        let on = entry-is_present k pgdir va v.page page apart in
        let same = table_of-with_table k pgdir va v.page page apart in
        inr (
          k.freelist,
          with_table k pgdir va,
          rw (off, used) (rw used refl),
          page,
          apart,
          rw on (ap (λ t. (t + 4 * ptx va, with_table k pgdir va)) same),
          on,
          same,
          inr (refl, table_empty k pgdir va v.page page apart),
        )
  ]
]
