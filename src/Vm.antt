-- ===== src/Vm.antt =====
-- vm.c: page tables, in the word memory of the allocator. An address is a 32-bit number and 0 the null
-- pointer.
pub mod Bits
pub mod Laws
pub mod Map
pub mod User
use mutex.Common.{
  ℕ, zero, suc, ◌+◌, ◌-◌, ◌*◌, ◌/◌, ◌%◌, Bool, true, false, not, ◌&&◌, ◌||◌, Option, none, some,
  ltb, leb, ◌==◌, if◌then◌else◌, update, min,
}
use mutex.Spinlock.{kernbase}
use mutex.Kalloc.{Kmem, page_size, v2p, pgroundup, kalloc, kfree}
use mutex.Fs.Bytes.{with_byte}
use mutex.Vm.Bits.{or_bits, or_word}

abbrev pub pte_p : ℕ
pte_p = 1

abbrev pub pte_w : ℕ
pte_w = 2

abbrev pub pte_u : ℕ
pte_u = 4

abbrev pub pdx : ℕ → ℕ
pdx va = va / 0x40_0000 % 1024

abbrev pub ptx : ℕ → ℕ
ptx va = va / 4096 % 1024

abbrev pub pte_addr : ℕ → ℕ
pte_addr pte = pte / 4096 * 4096

abbrev pub p2v : ℕ → ℕ
p2v a = (a + kernbase) % 0x1_0000_0000

abbrev pub pgrounddown : ℕ → ℕ
pgrounddown a = a / page_size * page_size

-- `*pte & PTE_P`, `*pte & PTE_U`
abbrev pub is_present : ℕ → Bool
is_present pte = pte % 2 == 1

abbrev pub is_user : ℕ → Bool
is_user pte = pte / 4 % 2 == 1

-- `memset(v, 0, PGSIZE)`, in words.
abbrev pub zeroed : ℕ → (ℕ → ℕ) → ℕ → ℕ
zeroed v memory a = if leb v a && ltb a (v + page_size) then 0 else memory a

abbrev pub pde_of : ℕ → ℕ → ℕ
pde_of pgdir va = pgdir + 4 * pdx va

-- The address of the entry, or 0.
unfoldable pub walkpgdir : Kmem → ℕ → ℕ → Bool → ℕ × Kmem
unfolding kalloc
walkpgdir k pgdir va alloc =
    let pde = pde_of pgdir va in
    if is_present (k.memory pde)
    then (p2v (pte_addr (k.memory pde)) + 4 * ptx va, k)
    else if not alloc
    then (0, k)
    else let (pgtab, k₁) = kalloc k in
      if pgtab == 0 then (0, k₁) else (
        pgtab + 4 * ptx va,
        record k₁ { memory = update (zeroed pgtab k₁.memory) pde (or_word (v2p pgtab) 7) },
      )

-- How `mappages` ends: 0, -1, or a panic.
pub data Mapping : Type 0 where
  maps : Kmem → Mapping
  fails : Kmem → Mapping
  remaps : Mapping

-- `*pte = pa | perm | PTE_P`
abbrev pub set_pte : Kmem → ℕ → ℕ → ℕ → Kmem
set_pte k pte pa perm = record k { memory = update k.memory pte (or_word (or_word pa perm) pte_p) }

-- The loop from `a` on, `n` rounds.
unfoldable pub map_from : ℕ → Kmem → ℕ → ℕ → ℕ → ℕ → Mapping
unfolding walkpgdir
map_from zero k pgdir a pa perm = maps k
map_from (suc n) k pgdir a pa perm =
    let (pte, k₁) = walkpgdir k pgdir a true in
    let rest =
      map_from n (set_pte k₁ pte pa perm) pgdir ((a + page_size) % 0x1_0000_0000)
        ((pa + page_size) % 0x1_0000_0000) perm in
    if pte == 0 then fails k₁ else if is_present (k₁.memory pte) then remaps else rest

-- The pages from that of `va` to that of the last byte.
unfoldable pub mappages : Kmem → ℕ → ℕ → ℕ → ℕ → ℕ → Mapping
unfolding map_from
mappages k pgdir va size pa perm =
    let last = pgrounddown ((va + size + 0xffff_ffff) % 0x1_0000_0000) in
    let rounds = (last + 0x1_0000_0000 - pgrounddown va) % 0x1_0000_0000 / page_size + 1 in
    map_from rounds k pgdir (pgrounddown va) pa perm

-- For an address without a page table the code reads address 0.
unfoldable pub uva2ka : Kmem → ℕ → ℕ → ℕ
unfolding walkpgdir
uva2ka k pgdir uva =
    let (pte, k₁) = walkpgdir k pgdir uva false in
    if not (is_present (k.memory pte))
    then 0
    else if not (is_user (k.memory pte))
    then 0
    else p2v (pte_addr (k.memory pte))

-- `memmove` of `n` bytes into the word memory.
unfoldable pub store_bytes : (ℕ → ℕ) → ℕ → (ℕ → ℕ) → ℕ → ℕ → ℕ
store_bytes memory to buf zero = memory
store_bytes memory to buf (suc n) =
    let m = store_bytes memory to buf n in
    update m ((to + n) / 4 * 4) (with_byte (m ((to + n) / 4 * 4)) ((to + n) % 4) (buf n))

-- The loop of `copyout`, on fuel.
unfoldable pub copyout_from : ℕ → Kmem → ℕ → ℕ → (ℕ → ℕ) → ℕ → Bool × Kmem
unfolding uva2ka store_bytes
copyout_from fuel k pgdir va p zero = (true, k)
copyout_from zero k pgdir va p (suc len) = (false, k)
copyout_from (suc fuel) k pgdir va p (suc len) =
    let va0 = pgrounddown va in
    let pa0 = uva2ka k pgdir va0 in
    let n = min (suc len) (page_size - (va - va0)) in
    let k₁ = record k { memory = store_bytes k.memory (pa0 + (va - va0)) p n } in
    let rest =
      copyout_from fuel k₁ pgdir ((va0 + page_size) % 0x1_0000_0000) (λ i. p (n + i))
        (suc len - n) in
    if pa0 == 0 then (false, k) else rest

-- `copyout`: whether it answers 0, or else -1.
unfoldable pub copyout : Kmem → ℕ → ℕ → (ℕ → ℕ) → ℕ → Bool × Kmem
unfolding copyout_from
copyout k pgdir va p len = copyout_from len k pgdir va p len

unfoldable pub clearpteu : Kmem → ℕ → ℕ → Option Kmem
unfolding walkpgdir
clearpteu k pgdir uva =
    let (pte, k₁) = walkpgdir k pgdir uva false in
    if pte == 0
    then none
    else some (record k {
      memory = update k.memory pte (k.memory pte - (if is_user (k.memory pte) then pte_u else 0));
    })
