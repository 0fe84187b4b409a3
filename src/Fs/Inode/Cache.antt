-- ===== src/Fs/Inode/Cache.antt =====
-- The inode cache holds each inode once.
use mutex.Common.{
  ℕ, ◌+◌, ◌<◌, ◌≡◌, ◌≢◌, ◌⊎◌, refl, sym, ◌∙◌, inl, inr, false, Option, none, some, ◌==◌, arith,
  first, first-IsFirst, first-none, IsFirst, ap, Option-cases, update,
}
use mutex.Fs.Inode.Defs.{Inode, Icache, ninode, is_cached, one_ref_more, recycled, iget}

-- An inode is cached in one entry at most, and the counts are those of an `int`.
pub record IsUnique (c : Icache) : Type 0 where
  pub once :
      (i j : ℕ)
      → i < ninode
      → j < ninode
      → (c i).ref ≢ 0
      → (c j).ref ≢ 0
      → (c i).dev ≡ (c j).dev
      → (c i).inum ≡ (c j).inum
      → i ≡ j
  pub small : (i : ℕ) → i < ninode → (c i).ref < 0x7fff_ffff

-- What `iget` of an inode answers: an entry that holds it, with a reference more, or a fresh one.
abbrev pub Got : Icache → ℕ → ℕ → ℕ → Icache → Type 0
Got c dev inum i c' =
    (i < ninode)
    × ((c' i).dev ≡ dev)
    × ((c' i).inum ≡ inum)
    × (((c i).ref ≢ 0 × ((c' i).ref ≡ (c i).ref + 1) × ((c' i).valid ≡ (c i).valid))
        ⊎ (((c i).ref ≡ 0) × ((c' i).ref ≡ 1) × ((c' i).valid ≡ false)))
    × ((j : ℕ) → j ≢ i → c' j ≡ c j)

module _ (c : Icache) (dev inum : ℕ) (v : IsUnique c) where
  hit :
      (i : ℕ)
      → IsFirst (is_cached c dev inum) ninode i
      → Got c dev inum i (update c i (one_ref_more (c i)))
  hit i f = (
    f.below,
    ground (arith, f.passes),
    ground (arith, f.passes),
    inl (ground (arith, f.passes), ground (arith, v.small i f.below), ground arith),
    λ j ne. ground arith,
  )

  recycle :
      (i : ℕ)
      → IsFirst (λ j. (c j).ref == 0) ninode i
      → Got c dev inum i (update c i (recycled (c i) dev inum))
  recycle i f = (
    f.below,
    ground arith,
    ground arith,
    inr (ground (arith, f.passes), ground arith, ground arith),
    λ j ne. ground arith,
  )

other :
    (c : Icache) (dev inum i : ℕ)
    → (c i).ref ≢ 0
    → (c i).ref < 0x7fff_ffff
    → is_cached c dev inum i ≡ false
    → ((c i).dev ≢ dev) ⊎ ((c i).inum ≢ inum)
other c dev inum i used small e = ground arith

-- An entry replaced by one for an inode that no other entry holds.
update-IsUnique :
    (c : Icache) (i : ℕ) (ip : Inode)
    → IsUnique c
    → ip.ref < 0x7fff_ffff
    → ((j : ℕ) → j < ninode → j ≢ i → (c j).ref ≢ 0 → ((c j).dev ≢ ip.dev) ⊎ ((c j).inum ≢ ip.inum))
    → IsUnique (update c i ip)
update-IsUnique c i ip v small apart = record {
  once = λ a b la lb ua ub e e'. ground (arith, v.once a b la lb, apart a la, apart b lb);
  small = λ a la. ground (arith, v.small a la);
}

-- `iget` in a cache that holds each inode once: it answers an entry that holds the inode, the one
-- that held it already with a reference more, or else an empty one, now with one reference and not
-- yet read from the disk; no other entry changes. Or it panics, and then no entry holds the inode
-- and none is empty.
iget_lem :
    (c : Icache) (dev inum : ℕ)
    → IsUnique c
    → ((i : ℕ) × (c' : Icache) × (iget c dev inum ≡ some (i, c')) × Got c dev inum i c')
      ⊎ ((iget c dev inum ≡ none)
          × ((i : ℕ) → i < ninode → ((c i).ref ≢ 0) × (((c i).dev ≢ dev) ⊎ ((c i).inum ≢ inum))))
unfolding iget
iget_lem c dev inum v = elim (Option-cases (first (is_cached c dev inum) ninode)) [
  | inr (i, e) ↦ inl (
    i,
    update c i (one_ref_more (c i)),
    rw (e, iget) refl,
    hit c dev inum v i (first-IsFirst (is_cached c dev inum) ninode i e),
  )
  | inl miss ↦ elim (Option-cases (first (λ i. (c i).ref == 0) ninode)) [
    | inr (i, e) ↦ inl (
      i,
      update c i (recycled (c i) dev inum),
      rw (miss, iget) (rw e refl),
      recycle c dev inum v i (first-IsFirst (λ j. (c j).ref == 0) ninode i e),
    )
    | inl full ↦ inr (
      rw (miss, iget) (rw full refl),
      λ i lt.
          let used : (c i).ref ≢ 0 =
            ground (arith, first-none (λ j. (c j).ref == 0) ninode full i lt) in
          (
            used,
            other c dev inum i used (v.small i lt)
                (first-none (is_cached c dev inum) ninode miss i lt),
          ),
    )
  ]
]

index_of : ℕ → Option (ℕ × Icache) → ℕ
index_of n none = n
index_of n (some (i, c')) = i

cache_of : Icache → Option (ℕ × Icache) → Icache
cache_of c none = c
cache_of c (some (i, c')) = c'

counted :
    (c c' : Icache) (k i : ℕ)
    → update c k (one_ref_more (c k)) ≡ c'
    → k ≡ i
    → (c' i).ref < 0x7fff_ffff
    → (one_ref_more (c k)).ref < 0x7fff_ffff
counted c c' k i table at lt =
    let there : (c' k).ref ≡ (one_ref_more (c k)).ref = rw (sym table) (ground arith) in
    let small : (c' k).ref < 0x7fff_ffff = rw at lt in rw (sym there) small

-- `iget` keeps each inode in one entry at most, as long as the count it raises does not reach the
-- last value of an `int`.
pub iget-IsUnique :
    (c c' : Icache) (dev inum i : ℕ)
    → IsUnique c
    → iget c dev inum ≡ some (i, c')
    → (c' i).ref < 0x7fff_ffff
    → IsUnique c'
unfolding iget cache_of index_of
iget-IsUnique c c' dev inum i v e lt = elim (Option-cases (first (is_cached c dev inum) ninode)) [
  | inr (k, h) ↦
      let f = first-IsFirst (is_cached c dev inum) ninode k h in
      let same : some (k, update c k (one_ref_more (c k))) ≡ some (i, c') =
        sym (rw (h, iget) refl) ∙ e in
      let table : update c k (one_ref_more (c k)) ≡ c' = ap (cache_of c) same in
      let at : k ≡ i = ap (index_of 0) same in
      rw (sym table) (
        update-IsUnique c k (one_ref_more (c k)) v (counted c c' k i table at lt)
          (λ j lj ne uj. ground (arith, f.passes, v.once j k lj f.below)))
  | inl miss ↦ elim (Option-cases (first (λ j. (c j).ref == 0) ninode)) [
    | inr (k, h) ↦
        let same : some (k, update c k (recycled (c k) dev inum)) ≡ some (i, c') =
          sym (rw (miss, iget) (rw h refl)) ∙ e in
        let table : update c k (recycled (c k) dev inum) ≡ c' = ap (cache_of c) same in
        rw (sym table) (
          update-IsUnique c k (recycled (c k) dev inum) v (omega arith) (λ j lj ne uj.
            other c dev inum j uj (v.small j lj)
              (first-none (is_cached c dev inum) ninode miss j lj)))
    | inl full ↦
        let fails : iget c dev inum ≡ none = rw (miss, iget) (rw full refl) in
        absurd (ground (arith, sym fails ∙ e))
  ]
]
