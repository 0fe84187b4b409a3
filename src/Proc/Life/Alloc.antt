-- ===== src/Proc/Life/Alloc.antt =====
-- How slots are taken: process numbers stay unique.
use mutex.Common.{
  ℕ, ◌+◌, ◌<◌, ◌≡◌, ◌≢◌, ◌⊎◌, refl, ap, inl, inr, false, Option, none, some, ◌==◌, if◌then◌else◌,
  arith, first, first-IsFirst, first-none, IsFirst, Bool-cases, Option-cases, List, [], ◌∷◌,
}
use mutex.Kalloc.{Kmem, kalloc}
use mutex.Kalloc.Stack.{Holds, kalloc_lem}
use mutex.Proc.Defs.{unused, embryo, is_unused, Kernel, nproc}
use mutex.Proc.Life.Defs.{with_stack, without_stack, allocproc}

-- Slots in use have different numbers, below the next one to be given and above 0; and the next one
-- is positive too as the C int that it is, whose sign is bit 31.
pub record UniquePids (k : Kernel) : Type 0 where
  pub below :
      (i : ℕ)
      → i < nproc
      → (k.table i).state ≢ unused
      → ((k.table i).pid < k.nextpid) × (0 < (k.table i).pid)
  pub unique :
      (i j : ℕ)
      → i < nproc
      → j < nproc
      → (k.table i).state ≢ unused
      → (k.table j).state ≢ unused
      → (k.table i).pid ≡ (k.table j).pid
      → i ≡ j
  pub next_pos : 0 < k.nextpid
  pub next_int : k.nextpid < 0x8000_0000

module _ (forkret trapret : ℕ) (k : Kernel) (i : ℕ) where
  -- Only slot `i` changes, and what it becomes.
  with_stack-slot :
      (ps : List ℕ) (page : ℕ)
      → Holds k.kmem (page ∷ ps)
      → let k' = with_stack forkret trapret k i in
        ((k'.table i).state ≡ embryo)
        × ((k'.table i).pid ≡ k.nextpid)
        × ((k'.table i).kstack ≡ page)
        × Holds k'.kmem ps
        × ((j : ℕ) → j ≢ i → k'.table j ≡ k.table j)
  unfolding with_stack
  with_stack-slot ps page h =
      let got = (kalloc_lem k.kmem).1 page ps h in
      (ground arith, ground arith, ground (arith, got.0), got.2, λ j ne. ground arith)

  without_stack-slot :
      (((without_stack k i).table i).state ≡ unused)
      × ((without_stack k i).kmem ≡ k.kmem)
      × ((j : ℕ) → j ≢ i → (without_stack k i).table j ≡ k.table j)
  unfolding without_stack
  without_stack-slot = (ground arith, refl, λ j ne. ground arith)

  module _ (v : UniquePids k) (lt : k.nextpid + 1 < 0x8000_0000) where
    with_stack-UniquePids : UniquePids (with_stack forkret trapret k i)
    unfolding with_stack
    with_stack-UniquePids = record {
      below = λ j l u. ground (arith, v.below j, v.next_pos);
      unique = λ a b la lb ua ub e. ground (arith, v.unique a b, v.below a, v.below b);
      next_pos = omega arith;
      next_int = omega arith;
    }

    without_stack-UniquePids : UniquePids (without_stack k i)
    unfolding without_stack
    without_stack-UniquePids = record {
      below = λ j l u. ground (arith, v.below j);
      unique = λ a b la lb ua ub e. ground (arith, v.unique a b);
      next_pos = omega arith;
      next_int = omega arith;
    }

-- The first unused slot and the top page are taken; nothing else changes.
abbrev pub Took : Kernel → List ℕ → Option ℕ → Kernel → Type 0
Took k ps answer k' =
    (i page : ℕ) × (rest : List ℕ) × IsFirst (λ j. is_unused (k.table j).state) nproc i
    × (ps ≡ page ∷ rest)
    × (answer ≡ some i)
    × ((k'.table i).state ≡ embryo)
    × ((k'.table i).pid ≡ k.nextpid)
    × ((k'.table i).kstack ≡ page)
    × Holds k'.kmem rest
    × ((j : ℕ) → j ≢ i → k'.table j ≡ k.table j)

-- There is an unused slot, but no page.
abbrev pub NoStack : Kernel → List ℕ → Option ℕ → Kernel → Type 0
NoStack k ps answer k' =
    (i : ℕ) × IsFirst (λ j. is_unused (k.table j).state) nproc i
    × (ps ≡ [])
    × (answer ≡ none)
    × ((k'.table i).state ≡ unused)
    × (k'.kmem ≡ k.kmem)
    × ((j : ℕ) → j ≢ i → k'.table j ≡ k.table j)

module _ (forkret trapret : ℕ) (k : Kernel) where
  abbrev stacked_or_not : ℕ → Option ℕ × Kernel
  stacked_or_not i =
      if (kalloc k.kmem).0 == 0
      then (none, without_stack k i)
      else (some i, with_stack forkret trapret k i)

  found_slot :
      (ps : List ℕ) (i : ℕ)
      → IsFirst (λ j. is_unused (k.table j).state) nproc i
      → Holds k.kmem ps
      → let (answer, k') = stacked_or_not i in Took k ps answer k' ⊎ NoStack k ps answer k'
  found_slot [] i f h =
      let none_left : (kalloc k.kmem).0 ≡ 0 =
        ap (λ (r : ℕ × Kmem). r.0) ((kalloc_lem k.kmem).0 h) in
      let (a, b, c) = without_stack-slot forkret trapret k i in
      rw none_left (inr (i, f, refl, refl, a, b, c))
  found_slot (page ∷ rest) i f h =
      let got = (kalloc_lem k.kmem).1 page rest h in
      let real : ((kalloc k.kmem).0 == 0) ≡ false = ground (arith, got.1) in
      let (a, b, c, d, e) = with_stack-slot forkret trapret k i rest page h in
      rw real (inl (i, page, rest, f, refl, refl, a, b, c, d, e))

-- `allocproc` while the pages `ps` are free, in three cases. It takes the first unused slot and
-- the top page, and the new process is an embryo with the number `nextpid` on that page. Or a slot
-- is unused but no page is free: the answer is null, and the slot is unused as before. Or no slot
-- is unused: the answer is null and nothing changes. The other slots never change.
allocproc_lem :
    (forkret trapret : ℕ) (k : Kernel) (ps : List ℕ)
    → Holds k.kmem ps
    → let (answer, k') = allocproc forkret trapret k in
      Took k ps answer k'
      ⊎ NoStack k ps answer k'
      ⊎ (((j : ℕ) → j < nproc → (k.table j).state ≢ unused) × (answer ≡ none) × (k' ≡ k))
unfolding allocproc
allocproc_lem forkret trapret k ps h =
    elim (Option-cases (first (λ j. is_unused (k.table j).state) nproc)) [
      | inl e ↦
          rw (e, allocproc)
            (inr (
              inr (
                λ j lt u.
                    ground (arith, first-none (λ j. is_unused (k.table j).state) nproc e j lt),
                refl,
                refl,
              )))
      | inr (i, e) ↦
          rw (e, allocproc)
            (widen (
              found_slot forkret trapret k ps i
                (first-IsFirst (λ j. is_unused (k.table j).state) nproc i e) h))
    ]
  where
    widen : {A B C : Type 0} → A ⊎ B → A ⊎ B ⊎ C
    widen (inl a) = inl a
    widen (inr b) = inr (inl b)

-- While `nextpid` is at most 2^31 - 2, so that the C int does not overflow: `allocproc`, whether it
-- succeeds or not, keeps `nextpid` a positive int below 2^31, and the process numbers of the slots in
-- use positive, below `nextpid` and different from one another.
pub allocproc-UniquePids :
    (forkret trapret : ℕ) (k : Kernel)
    → UniquePids k
    → k.nextpid + 1 < 0x8000_0000
    → UniquePids (allocproc forkret trapret k).1
unfolding allocproc
allocproc-UniquePids forkret trapret k v lt =
    elim (Option-cases (first (λ j. is_unused (k.table j).state) nproc)) [
      | inl e ↦ rw (e, allocproc) v
      | inr (i, e) ↦ elim (Bool-cases ((kalloc k.kmem).0 == 0)) [
        | inl null ↦ rw (e, allocproc, null) (without_stack-UniquePids forkret trapret k i v lt)
        | inr page ↦ rw (e, allocproc, page) (with_stack-UniquePids forkret trapret k i v lt)
      ]
    ]
