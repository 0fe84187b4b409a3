-- ===== src/Vm/Map.antt =====
-- A page that mappages has mapped, uva2ka finds.
use mutex.Common.{
  ℕ, ◌+◌, ◌-◌, ◌*◌, ◌/◌, ◌%◌, ◌<◌, ◌≡◌, ◌≢◌, ◌⊎◌, inl, inr, refl, sym, ◌∙◌, ap, Bool, true, false,
  not, ◌==◌, if◌then◌else◌, arith, Bool-cases,
}
use mutex.Kalloc.{Kmem, page_size}
use mutex.Vm.Bits.{or_word, or_word-page, or_word-one}
use mutex.Vm.{
  pte_p, ptx, pte_addr, p2v, pgrounddown, pde_of, is_present, is_user, walkpgdir, Mapping, maps,
  fails, remaps, set_pte, map_from, mappages, uva2ka,
}
use mutex.Vm.Laws.{IsKernelPage, IsDirectory, table_of, walkpgdir_lem}

flags_word :
    (pa perm : ℕ)
    → pa % 4096 ≡ 0
    → pa < 0x1_0000_0000
    → perm < 4096
    → or_word (or_word pa perm) pte_p ≡ pa + perm / 2 * 2 + 1
flags_word pa perm whole lt small =
    ap (λ w. or_word w pte_p) (or_word-page pa perm whole lt small)
    ∙ or_word-one (pa + perm) (omega arith)
    ∙ omega arith

swapped : (n : ℕ) (b : Bool) → (if not b then 0 else n) ≡ (if b then n else 0)
swapped n true = refl
swapped n false = refl

module _ (k : Kmem) (pgdir va table pa perm : ℕ) (dir : IsKernelPage pgdir)
    (page : IsKernelPage table) (apart : table ≢ pgdir)
    (on : is_present (k.memory (pde_of pgdir va)) ≡ true) (same : table_of k pgdir va ≡ table)
    (whole : pa % 4096 ≡ 0) (lt : pa < 0x1_0000_0000) (small : perm < 4096) where
  abbrev mapped : Kmem
  mapped = set_pte k (table + 4 * ptx va) pa perm

  pde_kept : mapped.memory (pde_of pgdir va) ≡ k.memory (pde_of pgdir va)
  pde_kept =
      let other : (table + 4 * ptx va == pde_of pgdir va) ≡ false =
        ground (arith, dir.whole, page.whole) in
      rw other refl

  pte_value : mapped.memory (table + 4 * ptx va) ≡ pa + perm / 2 * 2 + 1
  pte_value =
      let here : (table + 4 * ptx va == table + 4 * ptx va) ≡ true = ground arith in
      rw here (flags_word pa perm whole lt small)

  walks : walkpgdir mapped pgdir va false ≡ (table + 4 * ptx va, mapped)
  unfolding walkpgdir
  walks =
      let on' : is_present (mapped.memory (pde_of pgdir va)) ≡ true = ap is_present pde_kept ∙ on in
      rw on' (
        ap (λ w. (p2v (pte_addr w) + 4 * ptx va, mapped)) pde_kept
        ∙ ap (λ t. (t + 4 * ptx va, mapped)) same)

  -- What `uva2ka` answers for an entry.
  abbrev answer : ℕ → ℕ
  answer pte =
      if not (is_present pte) then 0 else if not (is_user pte) then 0 else p2v (pte_addr pte)

  answer-flags : answer (pa + perm / 2 * 2 + 1) ≡ (if is_user perm then p2v pa else 0)
  answer-flags =
      let present : is_present (pa + perm / 2 * 2 + 1) ≡ true = ground arith in
      let user : is_user (pa + perm / 2 * 2 + 1) ≡ is_user perm = ground arith in
      let addr : pte_addr (pa + perm / 2 * 2 + 1) ≡ pa = omega arith in
      rw (present, user, addr) (swapped (p2v pa) (is_user perm))

  uva2ka-set_pte : uva2ka mapped pgdir va ≡ (if is_user perm then p2v pa else 0)
  unfolding uva2ka
  uva2ka-set_pte =
      ap (λ (r : ℕ × Kmem). answer (mapped.memory r.0)) walks ∙ ap answer pte_value ∙ answer-flags

-- `mappages` of one page is one round of its loop.
one_page :
    (k : Kmem) (pgdir va pa perm : ℕ)
    → va % 4096 ≡ 0
    → va < 0x1_0000_0000
    → mappages k pgdir va 4096 pa perm ≡ map_from 1 k pgdir va pa perm
unfolding mappages
one_page k pgdir va pa perm whole lt =
    let at : pgrounddown va ≡ va = omega arith in
    let rounds : (pgrounddown ((va + 4096 + 0xffff_ffff) % 0x1_0000_0000) + 0x1_0000_0000 - va)
            % 0x1_0000_0000
            / page_size
          + 1
        ≡ 1 =
      omega arith in
    rw at (rw rounds refl)

-- The round, after the walk.
abbrev visited : ℕ × Kmem → ℕ → ℕ → Mapping
visited r pa perm =
    if r.0 == 0
    then fails r.1
    else if is_present (r.1.memory r.0)
    then remaps
    else maps (set_pte r.1 r.0 pa perm)

one_round :
    (k : Kmem) (pgdir va pa perm : ℕ) (r : ℕ × Kmem)
    → walkpgdir k pgdir va true ≡ r
    → va % 4096 ≡ 0
    → va < 0x1_0000_0000
    → mappages k pgdir va 4096 pa perm ≡ visited r pa perm
unfolding map_from
one_round k pgdir va pa perm r walk whole lt =
    one_page k pgdir va pa perm whole lt ∙ ap (λ (q : ℕ × Kmem). visited q pa perm) walk

-- An entry that is present after the walk was there before.
mapped_before :
    (k k₁ : Kmem) (pgdir va table : ℕ)
    → table_of k₁ pgdir va ≡ table
    → (is_present (k.memory (pde_of pgdir va)) ≡ true × (k₁ ≡ k))
      ⊎ ((table ≡ k.freelist) × ((x : ℕ) → x < 1024 → k₁.memory (table + 4 * x) ≡ 0))
    → is_present (k₁.memory (table + 4 * ptx va)) ≡ true
    → is_present (k.memory (table_of k pgdir va + 4 * ptx va)) ≡ true
mapped_before k k₁ pgdir va table same (inl (on, e)) taken =
    ap (λ (q : Kmem). is_present (q.memory (table_of q pgdir va + 4 * ptx va))) (sym e)
    ∙ ap (λ t. is_present (k₁.memory (t + 4 * ptx va))) same
    ∙ taken
mapped_before k k₁ pgdir va table same (inr (new, zero_page)) taken =
    absurd (ground (arith, zero_page (ptx va) (omega arith)))

-- `mappages` of one page and then `uva2ka` of its address: it answers -1 only if a page table is missing
-- and there is no free page for it; it panics only if the page is mapped already; else the address is
-- that of the page `pa` in the kernel, or 0 if the permissions are without PTE_U.
pub uva2ka-mappages :
    (k : Kmem) (pgdir va pa perm : ℕ)
    → IsDirectory k pgdir va
    → va % 4096 ≡ 0
    → va < 0x1_0000_0000
    → pa % 4096 ≡ 0
    → pa < 0x1_0000_0000
    → perm < 4096
    → ((mappages k pgdir va 4096 pa perm ≡ fails k)
        × (is_present (k.memory (pde_of pgdir va)) ≡ false)
        × (k.freelist ≡ 0))
      ⊎ ((mappages k pgdir va 4096 pa perm ≡ remaps)
          × (is_present (k.memory (table_of k pgdir va + 4 * ptx va)) ≡ true))
      ⊎ ((k' : Kmem) × (mappages k pgdir va 4096 pa perm ≡ maps k')
          × (uva2ka k' pgdir va ≡ (if is_user perm then p2v pa else 0)))
uva2ka-mappages k pgdir va pa perm v whole lt whole' lt' small = elim (walkpgdir_lem k pgdir va v) [
  | inl (walk, off, empty) ↦ inl (one_round k pgdir va pa perm (0, k) walk whole lt, off, empty)
  | inr (table, k₁, walk, page, apart, again, on, same, old) ↦
      let was_taken = mapped_before k k₁ pgdir va table same in
      let used : (table + 4 * ptx va == 0) ≡ false = ground (arith, page.low) in
      elim (Bool-cases (is_present (k₁.memory (table + 4 * ptx va)))) [
        | inl taken ↦ inr (
            inl (
              one_round k pgdir va pa perm (table + 4 * ptx va, k₁) walk whole lt
                  ∙ rw (used, taken) refl,
              was_taken old taken,
            ))
        | inr free ↦ inr (
            inr (
              set_pte k₁ (table + 4 * ptx va) pa perm,
              one_round k pgdir va pa perm (table + 4 * ptx va, k₁) walk whole lt
                  ∙ rw (used, free) refl,
              uva2ka-set_pte k₁ pgdir va table pa perm v.page page apart on same whole' lt' small,
            ))
      ]
]
