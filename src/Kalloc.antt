-- ===== src/Kalloc.antt =====
-- kalloc.c: the allocator of 4096-byte physical pages, a list threaded through the free pages.
-- Addresses are 32-bit numbers and 0 is the null pointer. `kernel_end` is the linker's symbol
-- `end`. The lock of `kmem` serialises the bodies, each of which is one function here.
pub mod Stack
use mutex.Common.{
  ℕ, zero, suc, ◌+◌, ◌-◌, ◌*◌, ◌/◌, ◌%◌, Bool, true, false, not, ◌||◌, ◌&&◌, Option, none, some,
  ltb, leb, ◌==◌, if◌then◌else◌, update,
}
use mutex.Spinlock.{kernbase}

abbrev pub page_size : ℕ
page_size = 4096

abbrev pub phystop : ℕ
phystop = 0xE00_0000

-- `memory` is the word at each address; the first word of a free page is its `next`.
pub record Kmem : Type 0 where
  pub use_lock : Bool
  pub freelist : ℕ
  pub memory : ℕ → ℕ

abbrev pub v2p : ℕ → ℕ
v2p v = (v + 0x1_0000_0000 - kernbase) % 0x1_0000_0000

-- `memset(v, 1, PGSIZE)`, in words.
abbrev pub junk : ℕ → (ℕ → ℕ) → ℕ → ℕ
junk v memory a = if leb v a && ltb a (v + page_size) then 0x0101_0101 else memory a

-- What `kfree` takes without a panic.
abbrev pub is_page : ℕ → ℕ → Bool
is_page kernel_end v = not (not (v % page_size == 0) || ltb v kernel_end || leb phystop (v2p v))

-- `none` is the panic.
unfoldable pub kfree : ℕ → Kmem → ℕ → Option Kmem
kfree kernel_end k v =
    if not (v % page_size == 0) || ltb v kernel_end || leb phystop (v2p v)
    then none
    else some (record k { memory = update (junk v k.memory) v k.freelist; freelist = v })

unfoldable pub kalloc : Kmem → ℕ × Kmem
kalloc k =
    if k.freelist == 0 then (0, k) else (k.freelist, record k { freelist = k.memory k.freelist })

-- The loop of `freerange` from `p` on, with fuel.
unfoldable pub free_pages : ℕ → ℕ → Kmem → ℕ → ℕ → Option Kmem
free_pages kernel_end zero k p vend = some k
free_pages kernel_end (suc fuel) k p vend =
    if leb (p + page_size) vend
    then elim (kfree kernel_end k p) [
      | none ↦ none
      | some k' ↦ free_pages kernel_end fuel k' (p + page_size) vend
    ]
    else some k

abbrev pub pgroundup : ℕ → ℕ
pgroundup a = (a + page_size - 1) / page_size * page_size

-- A range that ends at `vend` holds at most `vend / PGSIZE` pages.
unfoldable pub freerange : ℕ → Kmem → ℕ → ℕ → Option Kmem
unfolding free_pages
freerange kernel_end k vstart vend =
    free_pages kernel_end (vend / page_size) k (pgroundup vstart) vend

unfoldable pub kinit1 : ℕ → Kmem → ℕ → ℕ → Option Kmem
unfolding freerange
kinit1 kernel_end k vstart vend = freerange kernel_end (record k { use_lock = false }) vstart vend

unfoldable pub kinit2 : ℕ → Kmem → ℕ → ℕ → Option Kmem
unfolding freerange
kinit2 kernel_end k vstart vend = elim (freerange kernel_end k vstart vend) [
  | none ↦ none
  | some k' ↦ some (record k' { use_lock = true })
]
