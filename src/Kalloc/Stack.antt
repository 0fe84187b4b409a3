-- ===== src/Kalloc/Stack.antt =====
-- The free list as a stack of distinct pages.
use mutex.Common.{
  ℕ, zero, suc, ◌+◌, ◌-◌, ◌/◌, ◌%◌, ◌≤◌, ◌<◌, ◌≡◌, ◌≢◌, ◌⊎◌, refl, inl, inr, true, false, none,
  some, List, [], ◌∷◌, ◌==◌, arith, update, Bool-cases,
}
use mutex.Spinlock.{kernbase}
use mutex.Kalloc.{
  Kmem, page_size, phystop, junk, is_page, kfree, kalloc, free_pages, pgroundup, freerange,
}

-- The pages of the list that starts at `head`, in order, ended by the null pointer.
abbrev pub Chain : (ℕ → ℕ) → ℕ → List ℕ → Type 0
Chain memory head [] = head ≡ 0
Chain memory head (p ∷ ps) = (head ≡ p) × Chain memory (memory p) ps

abbrev pub NotIn : ℕ → List ℕ → Type 0
NotIn v [] = Unit {0}
NotIn v (p ∷ ps) = (v ≢ p) × NotIn v ps

-- Aligned, not null, and different from one another.
abbrev pub ArePages : List ℕ → Type 0
ArePages [] = Unit {0}
ArePages (p ∷ ps) = (p % page_size ≡ 0) × (p ≢ 0) × NotIn p ps × ArePages ps

-- The allocator holds exactly the pages `ps`, the next to be handed out first.
pub record Holds (k : Kmem) (ps : List ℕ) : Type 0 where
  pub chain : Chain k.memory k.freelist ps
  pub pages : ArePages ps

Chain-head :
    (memory : ℕ → ℕ) {x y : ℕ} (ps : List ℕ) → x ≡ y → Chain memory y ps → Chain memory x ps
Chain-head memory ps e h = rw e h

-- Writing to one page leaves the links of the others.
Chain-junk :
    (memory : ℕ → ℕ) (v w head : ℕ) (ps : List ℕ)
    → v % page_size ≡ 0
    → NotIn v ps
    → ArePages ps
    → Chain memory head ps
    → Chain (update (junk v memory) v w) head ps
Chain-junk memory v w head [] a n g c = c
Chain-junk memory v w head (p ∷ ps) a n g c =
    (c.0, Chain-head _ ps (ground arith) (Chain-junk memory v w (memory p) ps a n.1 g.3 c.1))

-- `kfree` of a page that is not on the free list, and of nothing else that is checked, pushes it:
-- it does not panic, and the page is the next to be handed out. It panics exactly on what is not
-- the address of a page between the kernel's end and the top of physical memory.
pub kfree_lem :
    (kernel_end v : ℕ) (k : Kmem) (ps : List ℕ)
    → 0 < kernel_end
    → Holds k ps
    → (is_page kernel_end v ≡ true
        → NotIn v ps
        → (k' : Kmem) × (kfree kernel_end k v ≡ some k') × Holds k' (v ∷ ps))
      × (is_page kernel_end v ≡ false → kfree kernel_end k v ≡ none)
unfolding kfree
kfree_lem kernel_end v k ps pos h = (
  λ ok fresh. (
    record k { memory = update (junk v k.memory) v k.freelist; freelist = v },
    ground arith,
    record {
      chain = (refl, pushed ok fresh);
      pages = (ground arith, ground arith, fresh, h.pages);
    },
  ),
  λ bad. ground arith,
)
  where
    pushed :
        is_page kernel_end v ≡ true
        → NotIn v ps
        → Chain (update (junk v k.memory) v k.freelist) (update (junk v k.memory) v k.freelist v) ps
    pushed ok fresh =
        Chain-head _ ps (ground arith)
          (Chain-junk k.memory v k.freelist k.freelist ps (ground arith) fresh h.pages h.chain)

-- `kalloc` returns the null pointer exactly when no page is free, and changes nothing then. Else it
-- returns the page on top, which is no longer on the free list, and keeps the rest.
pub kalloc_lem :
    (k : Kmem)
    → (Holds k [] → kalloc k ≡ (0, k))
      × ((p : ℕ) (ps : List ℕ)
          → Holds k (p ∷ ps)
          → let (r, k') = kalloc k in (r ≡ p) × (r ≢ 0) × Holds k' ps × NotIn p ps)
unfolding kalloc
kalloc_lem k = (
  λ h. ground (arith, h.chain),
  λ p ps h.
      let top : k.freelist ≡ p = h.chain.0 in
      let real : p ≢ 0 = h.pages.1 in
      (ground arith, ground arith, popped p ps h top real, h.pages.2),
)
  where
    popped :
        (p : ℕ) (ps : List ℕ) → Holds k (p ∷ ps) → k.freelist ≡ p → p ≢ 0 → Holds (kalloc k).1 ps
    popped p ps h top real = elim (Bool-cases (k.freelist == 0)) [
      | inl null ↦ absurd (ground arith)
      | inr full ↦ rw full (record { chain = rw top (h.chain.1); pages = h.pages.3 })
    ]

-- The pages of `ps` lie outside the addresses from `p` to `vend`.
abbrev pub Outside : ℕ → ℕ → List ℕ → Type 0
Outside p vend [] = Unit {0}
Outside p vend (q ∷ ps) = ((q < p) ⊎ (vend ≤ q)) × Outside p vend ps

-- `n` pages from `p` up, pushed one after the other.
abbrev pub stacked : ℕ → ℕ → List ℕ → List ℕ
stacked zero p ps = ps
stacked (suc n) p ps = stacked n (p + page_size) (p ∷ ps)

Outside-NotIn : (p vend : ℕ) (ps : List ℕ) → p < vend → Outside p vend ps → NotIn p ps
Outside-NotIn p vend [] lt h = tt
Outside-NotIn p vend (q ∷ ps) lt h = (ground arith, Outside-NotIn p vend ps lt h.1)

Outside-next : (p vend : ℕ) (ps : List ℕ) → Outside p vend ps → Outside (p + page_size) vend ps
Outside-next p vend [] h = tt
Outside-next p vend (q ∷ ps) h = (ground arith, Outside-next p vend ps h.1)

free_pages_lem :
    (kernel_end vend : ℕ)
    → 0 < kernel_end
    → vend ≤ kernbase + phystop
    → (fuel n p : ℕ) (k : Kmem) (ps : List ℕ) → n ≡ (vend - p) / page_size
    → n ≤ fuel
    → p % page_size ≡ 0
    → kernel_end ≤ p
    → kernbase ≤ p
    → Outside p vend ps
    → Holds k ps
    → (k' : Kmem) × (free_pages kernel_end fuel k p vend ≡ some k') × Holds k' (stacked n p ps)
unfolding free_pages
free_pages_lem ke vend pos top zero zero p k ps e f a b c o h = (k, refl, h)
free_pages_lem ke vend pos top zero (suc n) p k ps e f a b c o h = absurd (omega arith)
free_pages_lem ke vend pos top (suc fuel) zero p k ps e f a b c o h = (k, ground arith, h)
free_pages_lem ke vend pos top (suc fuel) (suc n) p k ps e f a b c o h =
    let (k₁, e₁, h₁) =
      (kfree_lem ke p k ps pos h).0 (ground arith) (Outside-NotIn p vend ps (omega arith) o) in
    let (k₂, e₂, h₂) =
      free_pages_lem ke vend pos top fuel n (p + page_size) k₁ (p ∷ ps) (omega arith) (omega arith)
        (omega arith) (omega arith) (omega arith) (inl (omega arith), Outside-next p vend ps o)
        h₁ in
    (k₂, ground (arith, e₁, e₂), h₂)

-- `freerange` over addresses above the kernel and below the top of physical memory, none of which
-- is free already, does not panic, and frees exactly the whole pages of the range: the
-- `(vend - p) / PGSIZE` pages from `p`, the start rounded up. The fuel is enough.
freerange_lem :
    (kernel_end vstart vend : ℕ) (k : Kmem) (ps : List ℕ)
    → 0 < kernel_end
    → kernel_end ≤ vstart
    → kernbase ≤ vstart
    → vend ≤ kernbase + phystop
    → Outside (pgroundup vstart) vend ps
    → Holds k ps
    → (k' : Kmem) × (freerange kernel_end k vstart vend ≡ some k')
      × Holds k' (stacked ((vend - pgroundup vstart) / page_size) (pgroundup vstart) ps)
unfolding freerange
freerange_lem ke vstart vend k ps pos lo base top o h =
    free_pages_lem ke vend pos top (vend / page_size) _ (pgroundup vstart) k ps refl (omega arith)
      (omega arith) (omega arith) (omega arith) o h
