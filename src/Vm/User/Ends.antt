-- ===== src/Vm/User/Ends.antt =====
-- The loops over the pages of a process end.
use mutex.Common.{
  none, some, ℕ, zero, suc, ◌+◌, ◌*◌, ◌/◌, ◌≤◌, ◌≡◌, ◌≢◌, inl, inr, refl, sym, ◌∙◌, ap, Bool, true,
  false, ltb, leb, ◌==◌, arith, Bool-cases,
}
use mutex.Spinlock.{kernbase}
use mutex.Kalloc.{Kmem, page_size, pgroundup, kfree, kalloc, v2p}
use mutex.Vm.{pte_addr, p2v, is_present, zeroed, maps, fails, remaps, mappages}
use mutex.Vm.User.{
  Grown, answers, panics, runs_on, undo, alloc_from, allocuvm, Freed, freed, stops, unfinished,
  no_table, not_present, bad_page, gives_back, free_entry, dealloc_from, deallocuvm, free_tables,
}

abbrev is_done : Freed → Bool
is_done (freed k) = true
is_done stops = true
is_done unfinished = false

dealloc_from-is_done :
    (kernel_end n : ℕ) (k : Kmem) (pgdir a oldsz : ℕ)
    → oldsz ≤ a + n * page_size
    → is_done (dealloc_from kernel_end n k pgdir a oldsz) ≡ true
unfolding dealloc_from
dealloc_from-is_done kernel_end zero k pgdir a oldsz le =
    let end : ltb a oldsz ≡ false = ground arith in rw end refl
dealloc_from-is_done kernel_end (suc n) k pgdir a oldsz le = elim (Bool-cases (ltb a oldsz)) [
  | inr end ↦ rw (end, is_done, dealloc_from) refl
  | inl more ↦
      let later : (k' : Kmem) (a' : ℕ)
          → oldsz ≤ a' + n * page_size
          → is_done (dealloc_from kernel_end n k' pgdir a' oldsz) ≡ true =
        λ k' a' le'. dealloc_from-is_done kernel_end n k' pgdir a' oldsz le' in
      rw (more, is_done, dealloc_from)
        (elim (free_entry kernel_end k pgdir a)
          as (λ e.
            is_done (elim e [
              | no_table ↦
                  dealloc_from kernel_end n k pgdir (a + 1023 * page_size + page_size) oldsz
              | not_present ↦ dealloc_from kernel_end n k pgdir (a + page_size) oldsz
              | bad_page ↦ stops
              | gives_back k' ↦ dealloc_from kernel_end n k' pgdir (a + page_size) oldsz
            ])
            ≡ true) [
              | no_table ↦ later k (a + 1023 * page_size + page_size) (omega arith)
              | not_present ↦ later k (a + page_size) (omega arith)
              | bad_page ↦ refl
              | gives_back k' ↦ later k' (a + page_size) (omega arith)
            ])
]

deallocuvm-is_done :
    (kernel_end : ℕ) (k : Kmem) (pgdir oldsz newsz : ℕ)
    → is_done (deallocuvm kernel_end k pgdir oldsz newsz) ≡ true
unfolding deallocuvm
deallocuvm-is_done kernel_end k pgdir oldsz newsz = elim (Bool-cases (leb oldsz newsz)) [
  | inl nothing ↦ rw nothing refl
  | inr pages ↦ rw pages (
      dealloc_from-is_done kernel_end (oldsz / page_size + 1) k pgdir (pgroundup newsz) oldsz
        (omega arith))
]

free_tables-is_done :
    (kernel_end n : ℕ) (k : Kmem) (pgdir i : ℕ)
    → is_done (free_tables kernel_end n k pgdir i) ≡ true
unfolding free_tables
free_tables-is_done kernel_end zero k pgdir i = refl
free_tables-is_done kernel_end (suc n) k pgdir i =
    elim (Bool-cases (is_present (k.memory (pgdir + 4 * i)))) [
      | inr off ↦ rw (off, is_done, free_tables) (free_tables-is_done kernel_end n k pgdir (i + 1))
      | inl on ↦
          let later : (k' : Kmem) → is_done (free_tables kernel_end n k' pgdir (i + 1)) ≡ true =
            λ k'. free_tables-is_done kernel_end n k' pgdir (i + 1) in
          rw (on, is_done, free_tables)
            (elim (kfree kernel_end k (p2v (pte_addr (k.memory (pgdir + 4 * i)))))
              as (λ e.
                is_done
                  (elim e [ none ↦ stops | some k' ↦ free_tables kernel_end n k' pgdir (i + 1) ])
                ≡ true) [ none ↦ refl | some k' ↦ later k' ])
    ]

abbrev is_over : Grown → Bool
is_over (answers n k) = true
is_over panics = true
is_over runs_on = false

undo-is_over :
    (kernel_end : ℕ) (k : Kmem) (pgdir newsz oldsz : ℕ)
    → is_over (undo kernel_end k pgdir newsz oldsz) ≡ true
unfolding undo
undo-is_over kernel_end k pgdir newsz oldsz =
    ended (deallocuvm kernel_end k pgdir newsz oldsz)
      (deallocuvm-is_done kernel_end k pgdir newsz oldsz)
  where
    ended :
        (f : Freed)
        → is_done f ≡ true
        → is_over (elim f [ freed k' ↦ answers 0 k' | stops ↦ panics | unfinished ↦ runs_on ])
          ≡ true
    ended (freed k') e = refl
    ended stops e = refl
    ended unfinished e = e

-- The rest of a round of `allocuvm`, once a page was asked for.
page_got :
    (r : ℕ × Kmem) (kernel_end pgdir a oldsz newsz : ℕ) (next : Kmem → Grown)
    → ((k' : Kmem) → is_over (next k') ≡ true)
    → is_over (elim (r.0 == 0) [
      | true ↦ undo kernel_end r.1 pgdir newsz oldsz
      | false ↦
          elim (mappages
            (record r.1 { memory = zeroed r.0 r.1.memory })
            pgdir
            a
            page_size
            (v2p r.0)
            6) [ remaps ↦ panics | maps k₂ ↦ next k₂ | fails k₂ ↦ next k₂ ]
    ])
      ≡ true
page_got r kernel_end pgdir a oldsz newsz next later = elim (Bool-cases (r.0 == 0)) [
  | inl null ↦ rw null (undo-is_over kernel_end r.1 pgdir newsz oldsz)
  | inr page ↦
      rw page
        (elim (mappages (record r.1 { memory = zeroed r.0 r.1.memory }) pgdir a page_size (v2p r.0)
            6)
          as (λ m.
            is_over (elim m [ remaps ↦ panics | maps k₂ ↦ next k₂ | fails k₂ ↦ next k₂ ]) ≡ true) [
              | remaps ↦ refl
              | maps k₂ ↦ later k₂
              | fails k₂ ↦ later k₂
            ])
]

alloc_from-is_over :
    (kernel_end n : ℕ) (k : Kmem) (pgdir a oldsz newsz : ℕ)
    → newsz ≤ a + n * page_size
    → is_over (alloc_from kernel_end n k pgdir a oldsz newsz) ≡ true
unfolding alloc_from
alloc_from-is_over kernel_end zero k pgdir a oldsz newsz le =
    let end : ltb a newsz ≡ false = ground arith in rw end refl
alloc_from-is_over kernel_end (suc n) k pgdir a oldsz newsz le = elim (Bool-cases (ltb a newsz)) [
  | inr end ↦ rw (end, is_over, alloc_from) refl
  | inl more ↦
      let later : (k' : Kmem)
          → is_over (alloc_from kernel_end n k' pgdir (a + page_size) oldsz newsz) ≡ true =
        λ k'. alloc_from-is_over kernel_end n k' pgdir (a + page_size) oldsz newsz (omega arith) in
      rw (more, is_over, alloc_from)
        (page_got (kalloc k) kernel_end pgdir a oldsz newsz
          (λ k'. alloc_from kernel_end n k' pgdir (a + page_size) oldsz newsz) later)
]

-- `deallocuvm` and `allocuvm` end, for all sizes: their loops, the undoing of a growth that finds no page
-- included, do not need more rounds than the larger size has pages, and one.
allocuvm-ends :
    (kernel_end : ℕ) (k : Kmem) (pgdir oldsz newsz : ℕ)
    → (deallocuvm kernel_end k pgdir oldsz newsz ≢ unfinished)
      × (allocuvm kernel_end k pgdir oldsz newsz ≢ runs_on)
unfolding allocuvm
allocuvm-ends kernel_end k pgdir oldsz newsz = (
  λ e.
      absurd
        (ground (arith, sym (deallocuvm-is_done kernel_end k pgdir oldsz newsz) ∙ ap is_done e)),
  λ e. absurd (ground (arith, sym grows ∙ ap is_over e)),
)
  where
    grows : is_over (allocuvm kernel_end k pgdir oldsz newsz) ≡ true
    grows = elim (Bool-cases (leb kernbase newsz)) [
      | inl high ↦ rw high refl
      | inr low ↦ elim (Bool-cases (ltb newsz oldsz)) [
        | inl less ↦ rw (low, less) refl
        | inr more ↦
            rw (low, more)
              (alloc_from-is_over kernel_end (newsz / page_size + 1) k pgdir (pgroundup oldsz) oldsz
                newsz (omega arith))
      ]
    ]
